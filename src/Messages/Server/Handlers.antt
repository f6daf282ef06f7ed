-- ===== src/Messages/Server/Handlers.antt =====
-- The loop of `main` in Client-Server-TCP-UDP/server.cpp. `buffer` in an input is its content once the
-- bytes received stand in it: what they do not overwrite is what was there before, and any bytes for
-- the model. A result has the packets sent, each with its socket. `none` is a write or a read out of
-- bounds, or a client that is not there.
use communication_protocols.Base.{
  ℕ, true, false, ◌||◌, not, Option, none, some, List, [], ◌∷◌, ◌++◌, Bytes, codes, length, take,
  drop, ltb, ◌==◌, if◌then◌else◌, same_bytes, c_string, decimal, fits, ◌>>=◌,
}
use communication_protocols.Messages.Topics.{
  add_topic, remove_topic, check_subscription, check_sf_active,
}
use communication_protocols.Messages.Command.{ServerMessage, decode_message}
use communication_protocols.Messages.Datagram.{
  Doubles, copy_text, is_valid_udp_message, decode_udp_message,
}
use communication_protocols.Messages.Server.{
  Client, Heap, write_client, ServerState, find, erase, get_client, check_unique_id,
  add_client_to_clients, add_string_to_list,
}

abbrev pub Sent : Type 0
Sent = ℕ × Bytes

abbrev pub buflen : ℕ
buflen = 1552

-- What `accept` and `recv` give for a connection, and `malloc` for a new client.
pub record Connection : Type 0 where
  pub newsockfd : ℕ
  pub buffer : Bytes
  pub block : ℕ × Option Client

-- What `recvfrom` gives, with the text of `inet_ntoa`, and what stands behind a topic of 50 bytes.
pub record Datagram : Type 0 where
  pub address : Bytes
  pub port : ℕ
  pub buffer : Bytes
  pub behind : Bytes

-- What is ready at a descriptor: one of them, by what the descriptor is.
pub record Input : Type 0 where
  pub connection : Connection
  pub datagram : Datagram
  pub line : Bytes
  pub received : Bytes

abbrev pub send_each : ℕ → List Bytes → List Sent
send_each socket [] = []
send_each socket (value ∷ values) = (socket, value) ∷ send_each socket values

unfoldable pub welcome : ServerState → ℕ → ℕ → ServerState × List Sent
welcome s socket p = (
  record s {
    heap = write_client p (record (s.heap p) { pending_messages = [] }) s.heap;
    active_fds = (λ i. (i == socket) || s.active_fds i);
    fdmax = (if ltb s.fdmax socket then socket else s.fdmax);
  },
  send_each socket (s.heap p).pending_messages,
)

-- The 8 bytes of `sizeof(buffer)`, once "exit" is copied into it.
abbrev pub refusal : Bytes → Bytes
refusal buffer = take 8 (codes "exit" ++ 0 ∷ drop 5 buffer)

unfoldable pub accept_client : ServerState → Connection → Option (ServerState × List Sent)
accept_client s c = do
  id ← c_string c.buffer
  if check_unique_id s.heap s.online_clients id
      then (do
        s ← add_client_to_clients s id c.newsockfd c.block
        p ← get_client s.heap s.all_clients id
        some (welcome s c.newsockfd p))
      else some (s, (c.newsockfd, refusal c.buffer) ∷ [])

-- The loop over the online clients.
unfoldable pub send_online : Heap → Bytes → Bytes → List (ℕ × ℕ) → List Sent
send_online heap topic text [] = []
send_online heap topic text ((socket, p) ∷ clients) =
    let rest = send_online heap topic text clients in
    if check_subscription (heap p).topics topic then (socket, text) ∷ rest else rest

-- The loop over all clients, and its body.
unfoldable pub keep_at : Bytes → Bytes → ℕ → Heap → Heap
keep_at topic text p heap =
    let client = heap p in
    let pending = add_string_to_list text client.pending_messages in
    if not client.online
    then (if check_sf_active client.topics topic
        then write_client p (record client { pending_messages = pending }) heap
        else heap)
    else heap

unfoldable pub keep_offline : Bytes → Bytes → List ℕ → Heap → Heap
keep_offline topic text [] heap = heap
keep_offline topic text (p ∷ all_clients) heap =
    keep_offline topic text all_clients (keep_at topic text p heap)

-- The last byte of a text is overwritten with 0: there is none in an empty text.
unfoldable pub cut_last : Bytes → Option Bytes
cut_last [] = none
cut_last (c ∷ text) = some (take (length text) (c ∷ text))

-- A subscribe or an unsubscribe, of which the newline is cut from the topic.
unfoldable pub obey : ServerState → ℕ → Option ServerState
obey s p =
    let client = s.heap p in
    let m = s.s_message in
    if m.type == b's'
    then some (record s {
      heap =
          write_client p (record client { topics = add_topic m.topic m.sf client.topics }) s.heap;
    })
    else (do
      name ← cut_last m.topic
      some (record s {
        heap = write_client p (record client { topics = remove_topic name client.topics }) s.heap;
        s_message = record m { topic = name };
      }))

unfoldable pub command : ServerState → ℕ → Bytes → Option ServerState
command s i [] = do
  p ← find i s.online_clients
  some (record s {
    heap = write_client p (record (s.heap p) { online = false }) s.heap;
    online_clients = erase i s.online_clients;
    active_fds = (λ j. if j == i then false else s.active_fds j);
  })
command s i (c ∷ received) = do
  (valid, message) ← decode_message s.s_message (copy_text buflen (c ∷ received))
  let s = record s { s_message = message }
  if valid then (do p ← find i s.online_clients; obey s p) else some s

unfoldable pub read_line : ServerState → Bytes → Option ServerState
read_line s line = do
  text ← c_string line
  some (if same_bytes text (codes "exit\n") then record s { exit_loop = true } else s)

-- The sending of a publication.
unfoldable pub spread : ServerState → Option (Bytes × Bytes) → ServerState × List Sent
spread s none = (s, [])
spread s (some (topic, text)) = (
  record s { heap = keep_offline topic text s.all_clients s.heap },
  send_online s.heap topic text s.online_clients,
)

module _ (doubles : Doubles) where
  -- The topic and the text that a datagram makes: `some none` if it is not valid.
  unfoldable pub published : Datagram → Option (Option (Bytes × Bytes))
  published d = elim (is_valid_udp_message d.buffer) [
    | false ↦ some none
    | true ↦ do
      message ← decode_udp_message doubles d.behind d.buffer
      text ← fits buflen (
          d.address
          ++ codes ":"
          ++ decimal d.port
          ++ codes " - "
          ++ message.topic
          ++ codes " - "
          ++ message.type
          ++ codes " - "
          ++ message.payload)
      text ← fits buflen (text ++ codes "\n")
      some (some (message.topic, text))
  ]

  unfoldable pub publish : ServerState → Datagram → Option (ServerState × List Sent)
  publish s d = do publication ← published d; some (spread s publication)

  module _ (tcp_sock udp_sock : ℕ) where
    -- The body of the loop over the descriptors, at one that is ready.
    unfoldable pub serve : ServerState → ℕ → Input → Option (ServerState × List Sent)
    serve s i input =
        if i == tcp_sock
        then accept_client s input.connection
        else if i == udp_sock
        then publish s input.datagram
        else if i == 0
        then (do s ← read_line s input.line; some (s, []))
        else (do s ← command s i input.received; some (s, []))

    -- One turn of the outer loop: the descriptors that `select` gives, in increasing order.
    unfoldable pub serve_ready : ServerState → List (ℕ × Input) → Option (ServerState × List Sent)
    serve_ready s [] = some (s, [])
    serve_ready s ((i, input) ∷ ready) = do
      (s, sent) ← serve s i input
      elim s.exit_loop [
        | true ↦ some (s, sent)
        | false ↦ do (s, more) ← serve_ready s ready; some (s, sent ++ more)
      ]

    -- The outer loop, with what `select` gives in each turn.
    unfoldable pub serve_loop :
        ServerState → List (List (ℕ × Input)) → Option (ServerState × List Sent)
    serve_loop s [] = some (s, [])
    serve_loop s (ready ∷ turns) = elim s.exit_loop [
      | true ↦ some (s, [])
      | false ↦ do
        (s, sent) ← serve_ready s ready
        (s, more) ← serve_loop s turns
        some (s, sent ++ more)
    ]

-- What `main` sets before the loop: `heap` and `message` are not initialised.
unfoldable pub initial : ℕ → ℕ → Heap → ServerMessage → ServerState
initial tcp_sock udp_sock heap message = record {
  heap = heap;
  all_clients = [];
  online_clients = [];
  active_fds = (λ i. (i == tcp_sock) || (i == udp_sock) || (i == 0));
  fdmax = tcp_sock;
  s_message = message;
  exit_loop = false;
}
