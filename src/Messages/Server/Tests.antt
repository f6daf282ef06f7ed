-- ===== src/Messages/Server/Tests.antt =====
-- A server of server.cpp with two clients: "ana", who is offline and subscribed to "ab" with
-- store-and-forward, and "bob", who is online.
mod Runs
mod Served
mod Closed
mod Published
use communication_protocols.Base.{
  ℕ, ◌≡◌, refl, ◌⊎◌, inl, inr, true, false, some, List, [], ◌∷◌, ◌++◌, Bytes, codes, ◌==◌,
  if◌then◌else◌, same_bytes, Bool-cases, c_string, fits, decimal_loop, arith,
}
use mathlib.Core.Path.{subst}
use mathlib.Core.List.{reverse}
use communication_protocols.Messages.Topics.Lookup.{IsMap, flag}
use communication_protocols.Messages.Datagram.{
  copy_text, topic_of, is_valid_udp_message, decode_payload, decode_udp_message,
}
use communication_protocols.Messages.Datagram.Tests.{doubles, datagram}
use communication_protocols.Messages.Server.{
  Client, Heap, write_client, ServerState, find, erase, get_client, check_unique_id,
  add_client_to_clients,
}
use communication_protocols.Messages.Server.Handlers.{
  Connection, Datagram, Input, Sent, send_each, welcome, accept_client, command, published, spread,
  publish, serve, initial,
}
use communication_protocols.Messages.Server.Clients.{listed, Distinct, Ascending}
use communication_protocols.Messages.Server.Invariant.{IsServer}
use communication_protocols.Messages.Server.Connects.{IsFresh, newcomer}
use communication_protocols.Messages.Server.Reachable.{Reachable, start, step, reachable-IsServer}
use communication_protocols.Messages.Server.Delivery.{sent_to, delivery, kept, publish-delivery}
use communication_protocols.Messages.Server.Outcome.{Outcome, accept_client-outcome}
use communication_protocols.Messages.Server.Waiting.{text_for}
use communication_protocols.Messages.Server.Handlers.{serve_ready, serve_loop}
use communication_protocols.Messages.Server.Stop.{serve_loop-exit}
use communication_protocols.Messages.Server.Backlog.{
  Trace, next, done, Without, text_of_input, wanted, accept_client-backlog,
}

abbrev pub ana : Client
ana = record {
  id = codes "ana";
  online = false;
  topics = record { name = codes "ab"; sf = true } ∷ [];
  pending_messages = codes "old" ∷ [];
}

abbrev pub bob : Client
bob = record {
  id = codes "bob";
  online = true;
  topics = record { name = codes "ab"; sf = false } ∷ [];
  pending_messages = [];
}

abbrev pub two_clients : ServerState
two_clients = record {
  heap = (λ p. if p == 100 then ana else bob);
  all_clients = 100 ∷ 200 ∷ [];
  online_clients = (7, 200) ∷ [];
  active_fds = (λ i. true);
  fdmax = 7;
  s_message = record { type = b's'; topic = codes "ab"; sf = false };
  exit_loop = false;
}

either {ℓ} : (P : ℕ → Type ℓ) → P 100 → P 200 → (p : ℕ) → listed p (100 ∷ 200 ∷ []) ≡ true → P p
unfolding listed
either P a b p l = elim (Bool-cases (100 == p)) [
  | inl e ↦ let same : 100 ≡ p = ground arith in subst P same a
  | inr e ↦ let same : 200 ≡ p = ground arith in subst P same b
]

abbrev SameId : ℕ → ℕ → Type 0
SameId p q = same_bytes (two_clients.heap p).id (two_clients.heap q).id ≡ true → p ≡ q

pub two_clients-IsServer : IsServer two_clients
unfolding listed Distinct Ascending find IsMap same_bytes
two_clients-IsServer = record {
  ascending = (tt, tt);
  distinct = ground arith;
  known = (λ k p f. ground arith);
  marked = (λ k p f. ground arith);
  has_socket =
      either
        (λ p.
          (two_clients.heap p).online ≡ true
          → (k : ℕ) × (find k two_clients.online_clients ≡ some p))
        (λ o. absurd (ground arith)) (λ o. (7, refl));
  one_socket = (λ j k p f g. ground arith);
  one_id = (λ p q l l'.
      either (λ p. (q : ℕ) → listed q two_clients.all_clients ≡ true → SameId p q)
        (either (SameId 100) (λ e. refl) (λ e. absurd (ground arith)))
        (either (SameId 200) (λ e. absurd (ground arith)) (λ e. refl)) p l q l');
  maps = either (λ p. IsMap (two_clients.heap p).topics) (tt, tt) (tt, tt);
}

abbrev pub empty_block : Client
empty_block = record { id = []; online = false; topics = []; pending_messages = [] }

-- A connection with the socket 8 and an empty block at 300.
abbrev connection : Bytes → Connection
connection buffer = record { newsockfd = 8; buffer = buffer; block = (300, some empty_block) }

abbrev pub news : Datagram
news = record {
  address = codes "10.0.0.1";
  port = 5000;
  buffer = datagram (3 ∷ codes "hi" ++ 0 ∷ []);
  behind = [];
}

abbrev pub text : Bytes
text = codes "10.0.0.1:5000 - ab - STRING - hi\n"

pub published-news : published doubles news ≡ some (some (codes "ab", text))
unfolding published is_valid_udp_message decode_udp_message decode_payload topic_of copy_text
    c_string fits decimal_loop
published-news = refl

publish-delivery_example :
    (heap : Heap) × (sent : List Sent) × (publish doubles two_clients news
      ≡ some (record two_clients { heap = heap }, sent))
    × ((socket : ℕ)
        → sent_to socket sent
          ≡ delivery two_clients.heap (codes "ab") text (find socket two_clients.online_clients))
    × ((p : ℕ)
        → heap p ≡ (
            if listed p two_clients.all_clients
            then kept (codes "ab") text (two_clients.heap p)
            else two_clients.heap p))
publish-delivery_example =
    publish-delivery doubles two_clients news (codes "ab") text two_clients-IsServer published-news

abbrev ana_bytes : Bytes
ana_bytes = codes "ana" ++ 0 ∷ codes "rest"

ana_text : c_string ana_bytes ≡ some (codes "ana")
unfolding c_string
ana_text = refl

accept_client-outcome_example : Outcome two_clients (connection ana_bytes) (codes "ana")
unfolding find
accept_client-outcome_example =
    accept_client-outcome two_clients (connection ana_bytes) (codes "ana") two_clients-IsServer refl
      (omega arith) ana_text
