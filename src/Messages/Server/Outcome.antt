-- ===== src/Messages/Server/Outcome.antt =====
-- What server.cpp does with a connection: the packets and the new state.
use communication_protocols.Base.{
  ℕ, ◌<◌, ◌≡◌, ◌≢◌, refl, ap, ◌∙◌, inl, inr, true, false, ◌||◌, none, some, List, [], ◌∷◌, Bytes,
  map, length, ltb, ◌==◌, if◌then◌else◌, Bool-cases, c_string,
}
use communication_protocols.Messages.Server.{Client, write_client, ServerState, find, insert}
use communication_protocols.Messages.Server.Handlers.{
  Connection, send_each, welcome, accept_client, refusal,
}
use communication_protocols.Messages.Server.Clients.{listed, find-insert}
use communication_protocols.Messages.Server.Invariant.{IsServer, write_client_self}
use communication_protocols.Messages.Server.Admission.{accept_client_cases}

-- From s, the connection makes the client p one that is online with the new socket and has no pending
-- messages, is else as `client` says, and gets those that `client` has, in order. `all` are the clients
-- then. Nothing else is changed, except that the new socket is waited for.
pub record Welcomed (s : ServerState) (c : Connection) (p : ℕ) (client : Client) (all : List ℕ)
    : Type 0 where
  pub state : ServerState
  pub result :
      accept_client s c ≡ some (state, map (λ value. (c.newsockfd, value)) client.pending_messages)
  pub written :
      (q : ℕ)
      → state.heap q
        ≡ (if p == q then record client { online = true; pending_messages = [] } else s.heap q)
  pub clients : state.all_clients ≡ all
  pub online :
      (k : ℕ)
      → find k state.online_clients ≡ (if c.newsockfd == k then some p else find k s.online_clients)
  pub watched : (k : ℕ) → state.active_fds k ≡ ((k == c.newsockfd) || s.active_fds k)
  pub top : state.fdmax ≡ (if ltb s.fdmax c.newsockfd then c.newsockfd else s.fdmax)
  pub message : state.s_message ≡ s.s_message
  pub goes_on : state.exit_loop ≡ s.exit_loop

abbrev emptied : Client → Client
emptied client = record client { pending_messages = [] }

send_each-map :
    (socket : ℕ) (values : List Bytes)
    → send_each socket values ≡ map (λ value. (socket, value)) values
send_each-map socket [] = refl
send_each-map socket (value ∷ values) = ap (λ l. (socket, value) ∷ l) (send_each-map socket values)

welcome-Welcomed :
    (s : ServerState) (c : Connection) (p : ℕ) (client : Client) (all : List ℕ)
    → find c.newsockfd s.online_clients ≡ none
    → accept_client s c
      ≡ some (
          welcome
            (record s {
              heap = write_client p (record client { online = true }) s.heap;
              all_clients = all;
              online_clients = insert c.newsockfd p s.online_clients;
            })
            c.newsockfd
            p)
    → Welcomed s c p client all
unfolding welcome
welcome-Welcomed s c p client all free is =
    let here = record client { online = true } in
    let there = write_client_self p here s.heap in
    let t = record s {
      heap = write_client p here s.heap;
      all_clients = all;
      online_clients = insert c.newsockfd p s.online_clients;
    } in
    record {
      state = (welcome t c.newsockfd p).0;
      result =
          is
          ∙ ap (λ l. some ((welcome t c.newsockfd p).0, l))
              (ap (λ d. send_each c.newsockfd d.pending_messages) there
                ∙ send_each-map c.newsockfd client.pending_messages);
      written = (λ q. elim (Bool-cases (p == q)) [
        | inl same ↦ rw same (ap emptied there)
        | inr other ↦ rw other refl
      ]);
      clients = refl;
      online = (λ k. find-insert c.newsockfd p s.online_clients k free);
      watched = (λ k. refl);
      top = refl;
      message = refl;
      goes_on = refl;
    }

-- How a connection with an id goes: a client that is online has it; a client that is offline has it; no
-- client has it and the new block holds lists; or no client has it and the block does not.
pub data Outcome (s : ServerState) (c : Connection) (id : Bytes) : Type 0 where
  refused :
      (socket p : ℕ)
      → find socket s.online_clients ≡ some p
      → (s.heap p).id ≡ id
      → accept_client s c ≡ some (s, (c.newsockfd, refusal c.buffer) ∷ [])
      → Outcome s c id
  returned :
      (p : ℕ)
      → listed p s.all_clients ≡ true
      → (s.heap p).online ≡ false
      → (s.heap p).id ≡ id
      → Welcomed s c p (s.heap p) s.all_clients
      → Outcome s c id
  joined :
      (content : Client)
      → c.block.1 ≡ some content
      → ((p : ℕ) → listed p s.all_clients ≡ true → (s.heap p).id ≢ id)
      → Welcomed s c c.block.0 (record content { id = id }) (c.block.0 ∷ s.all_clients)
      → Outcome s c id
  wild :
      c.block.1 ≡ none
      → ((p : ℕ) → listed p s.all_clients ≡ true → (s.heap p).id ≢ id)
      → accept_client s c ≡ none
      → Outcome s c id

-- In a server whose lists are as they should be, with a connection on a socket that is not in use and an
-- id of at most 10 characters. If a client that is online has the id, the socket is sent the refusal and
-- nothing changes. If a client that is offline has it, the socket is sent its pending messages, in
-- order, and the client is online with this socket and has none any more. If no client has it, the same
-- is done with the new block, which becomes a client with this id and with the topics and the messages
-- that are in the block, as nothing sets them; and if what stands there does not point to lists,
-- the server faults. Nothing else of the state changes, but the socket is waited for, and the greatest
-- descriptor is at least this one.
pub accept_client-outcome :
    (s : ServerState) (c : Connection) (id : Bytes)
    → IsServer s
    → find c.newsockfd s.online_clients ≡ none
    → length id < 11
    → c_string c.buffer ≡ some id
    → Outcome s c id
accept_client-outcome s c id v free small e = elim (accept_client_cases s c id v small e) [
  | inl r ↦ refused r.socket r.client r.is_online r.same_id r.unchanged
  | inr (inl r) ↦
      returned r.client r.is_listed r.is_offline r.same_id
        (welcome-Welcomed s c r.client (s.heap r.client) s.all_clients free r.result)
  | inr (inr (inl r)) ↦ joined r.content r.holds r.new_id (
      welcome-Welcomed s c c.block.0 (record (r.content) { id = id }) (c.block.0 ∷ s.all_clients)
        free r.result)
  | inr (inr (inr r)) ↦ wild r.wild r.new_id r.result
]
