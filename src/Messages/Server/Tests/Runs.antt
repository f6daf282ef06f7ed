-- ===== src/Messages/Server/Tests/Runs.antt =====
-- Runs of the server of the tests: a datagram, the end of a connection, and the line "exit".
use communication_protocols.Base.{
  ℕ, ◌≡◌, refl, true, false, some, List, [], ◌∷◌, ◌++◌, codes, ◌==◌, if◌then◌else◌, same_bytes,
  c_string, fits, arith,
}
use mathlib.Core.List.{reverse}
use communication_protocols.Messages.Topics.Lookup.{flag}
use communication_protocols.Messages.Datagram.Tests.{doubles}
use communication_protocols.Messages.Server.{
  write_client, ServerState, find, erase, get_client, check_unique_id, add_client_to_clients,
}
use communication_protocols.Messages.Server.Handlers.{
  Input, Sent, send_each, welcome, accept_client, command, spread, publish, serve, initial,
}
use communication_protocols.Messages.Server.Clients.{listed}
use communication_protocols.Messages.Server.Invariant.{IsServer}
use communication_protocols.Messages.Server.Connects.{IsFresh, newcomer}
use communication_protocols.Messages.Server.Watched.{IsWatched}
use communication_protocols.Messages.Server.Reachable.{Reachable, start, step, reachable-IsServer}
use communication_protocols.Messages.Server.Waiting.{text_for}
use communication_protocols.Messages.Server.Handlers.{serve_ready, serve_loop}
use communication_protocols.Messages.Server.Stop.{serve_loop-exit}
use communication_protocols.Messages.Server.Backlog.{
  Trace, next, done, Without, text_of_input, wanted, accept_client-backlog,
}
use communication_protocols.Messages.Server.Tests.{
  empty_block, ana, two_clients, two_clients-IsServer, connection, news, text, published-news,
  ana_bytes, ana_text,
}

abbrev pub input : Input
input = record { connection = connection ana_bytes; datagram = news; line = []; received = [] }

abbrev after_news : ServerState
after_news = (spread two_clients (some (codes "ab", text))).0

abbrev bob_gone : ServerState
bob_gone = record after_news {
  heap = write_client 200 (record (after_news.heap 200) { online = false }) after_news.heap;
  online_clients = erase 7 after_news.online_clients;
  active_fds = (λ j. if j == 7 then false else after_news.active_fds j);
}

-- The sockets 3 and 4 are for connections and datagrams.
news_served :
    serve doubles 3 4 two_clients 4 input
    ≡ some (after_news, (spread two_clients (some (codes "ab", text))).1)
unfolding serve publish
news_served = rw published-news refl

bob_served : serve doubles 3 4 after_news 7 input ≡ some (bob_gone, [])
unfolding serve command find spread
bob_served = refl

two_clients-IsFresh : IsFresh two_clients (connection ana_bytes)
unfolding find listed
two_clients-IsFresh = record {
  socket_free = refl;
  block_free = refl;
  content = empty_block;
  holds = refl;
  no_topics = refl;
  no_messages = refl;
}

after_news-IsFresh : IsFresh after_news (connection ana_bytes)
unfolding find listed spread
after_news-IsFresh = record {
  socket_free = refl;
  block_free = refl;
  content = empty_block;
  holds = refl;
  no_topics = refl;
  no_messages = refl;
}

bob_gone-IsFresh : IsFresh bob_gone (connection ana_bytes)
unfolding find listed spread erase
bob_gone-IsFresh = record {
  socket_free = refl;
  block_free = refl;
  content = empty_block;
  holds = refl;
  no_topics = refl;
  no_messages = refl;
}

abbrev two_inputs : List (ℕ × Input)
two_inputs = (4, input) ∷ (7, input) ∷ []

two_served : Trace doubles 3 4 two_clients two_inputs bob_gone
two_served =
    next (spread two_clients (some (codes "ab", text))).1 two_clients-IsFresh news_served
      (next [] after_news-IsFresh bob_served done)

nobody : Without doubles 3 4 (codes "ana") two_inputs
unfolding Without
nobody = ((λ e. absurd (ground arith)), ((λ e. absurd (ground arith)), tt))

waits : wanted doubles 3 4 ana.topics two_inputs ≡ text ∷ []
unfolding wanted text_of_input text_for flag same_bytes
waits = rw published-news refl

accept_client-backlog_example :
    (s'' : ServerState) × (accept_client bob_gone (connection ana_bytes)
      ≡ some (
        s'',
        send_each 8 (reverse (wanted doubles 3 4 ana.topics two_inputs) ++ codes "old" ∷ []),
      ))
    × (s''.heap 100 ≡ record ana { online = true; pending_messages = [] })
    × (find 8 s''.online_clients ≡ some 100)
accept_client-backlog_example =
    accept_client-backlog doubles 3 4 two_clients bob_gone 100 two_inputs (connection ana_bytes)
      two_clients-IsServer (unfold listed in refl) refl (omega arith) two_served nobody
      bob_gone-IsFresh ana_text

abbrev empty_server : ServerState
empty_server = initial 3 4 (λ p. ana) (record { type = 0; topic = []; sf = false })

abbrev pub ana_joined : ServerState × List Sent
ana_joined = welcome (newcomer empty_server (codes "ana") 8 (300, empty_block)) 8 300

empty_server-IsFresh : IsFresh empty_server (connection ana_bytes)
unfolding initial find listed
empty_server-IsFresh = record {
  socket_free = refl;
  block_free = refl;
  content = empty_block;
  holds = refl;
  no_topics = refl;
  no_messages = refl;
}

ana_served : serve doubles 3 4 empty_server 3 input ≡ some ana_joined
unfolding serve accept_client c_string check_unique_id add_client_to_clients get_client fits initial
    same_bytes
ana_served = refl

pub ana_reachable : Reachable doubles 3 4 ana_joined.0
ana_reachable =
    step 3 input ana_joined.1 (start (λ p. ana) (record { type = 0; topic = []; sf = false }))
      empty_server-IsFresh ana_served

reachable-IsServer_example : IsServer ana_joined.0 × IsWatched 3 4 ana_joined.0
reachable-IsServer_example = reachable-IsServer doubles 3 4 ana_joined.0 ana_reachable

abbrev exit_input : Input
exit_input = record input { line = codes "exit\n" ++ 0 ∷ codes "old" }

exit_text : c_string exit_input.line ≡ some (codes "exit\n")
unfolding c_string
exit_text = refl

abbrev sent_news : List Sent
sent_news = (spread two_clients (some (codes "ab", text))).1

first_served :
    serve_ready doubles 3 4 two_clients ((4, input) ∷ []) ≡ some (after_news, sent_news ++ [])
unfolding serve_ready serve publish spread
first_served = rw published-news refl

serve_loop-exit_example :
    serve_loop doubles 3 4 two_clients
      (((4, input) ∷ (0, exit_input) ∷ (7, input) ∷ []) ∷ two_inputs ∷ [])
    ≡ some (record after_news { exit_loop = true }, sent_news ++ [])
unfolding spread
serve_loop-exit_example =
    serve_loop-exit doubles 3 4 two_clients after_news ((4, input) ∷ []) ((7, input) ∷ [])
      (two_inputs ∷ []) exit_input (sent_news ++ []) (ground arith) (ground arith) exit_text
      first_served refl refl
