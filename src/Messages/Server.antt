-- ===== src/Messages/Server.antt =====
-- The state of `main` in Client-Server-TCP-UDP/server.cpp, and the functions of helpers.cpp on
-- clients. A client is a block on the heap, which `all_clients` and `online_clients` both point to.
pub mod Handlers
pub mod Clients
pub mod Invariant
pub mod Moves
pub mod Connects
pub mod Preserves
pub mod Watched
pub mod Reachable
pub mod Delivery
pub mod Admission
pub mod Outcome
pub mod Waiting
pub mod Backlog
pub mod Stop
pub mod Published
pub mod Publishable
pub mod Obeys
pub mod Serves
pub mod Loop
pub mod Bounds
pub mod Close
pub mod Tests
use communication_protocols.Base.{
  ℕ, ◌≡◌, Bool, true, false, not, Option, none, some, List, [], ◌∷◌, Bytes, ltb, ◌==◌,
  if◌then◌else◌, same_bytes, fits, ◌>>=◌,
}
use communication_protocols.Messages.Topics.{Topic}
use communication_protocols.Messages.Command.{ServerMessage}

-- `client`
pub record Client : Type 0 where
  pub id : Bytes
  pub online : Bool
  pub topics : List Topic
  pub pending_messages : List Bytes

abbrev pub Heap : Type 0
Heap = ℕ → Client

abbrev pub write_client : ℕ → Client → Heap → Heap
write_client p client heap q = if p == q then client else heap q

-- The variables of `main`: `all_clients` by its pointers, `online_clients`, a `std::map` from sockets
-- to pointers, by its pairs in the order of the sockets, and `active_fds` by its test.
pub record ServerState : Type 0 where
  pub heap : Heap
  pub all_clients : List ℕ
  pub online_clients : List (ℕ × ℕ)
  pub active_fds : ℕ → Bool
  pub fdmax : ℕ
  pub s_message : ServerMessage
  pub exit_loop : Bool

-- `find`, `insert` and `erase` of the `std::map`.
unfoldable pub find : ℕ → List (ℕ × ℕ) → Option ℕ
find socket [] = none
find socket ((k, p) ∷ clients) = if k == socket then some p else find socket clients

unfoldable pub insert : ℕ → ℕ → List (ℕ × ℕ) → List (ℕ × ℕ)
insert socket p [] = (socket, p) ∷ []
insert socket p ((k, q) ∷ clients) =
    if socket == k
    then (k, q) ∷ clients
    else if ltb socket k
    then (socket, p) ∷ (k, q) ∷ clients
    else (k, q) ∷ insert socket p clients

unfoldable pub erase : ℕ → List (ℕ × ℕ) → List (ℕ × ℕ)
erase socket [] = []
erase socket ((k, p) ∷ clients) =
    if k == socket then erase socket clients else (k, p) ∷ erase socket clients

unfoldable pub get_client : Heap → List ℕ → Bytes → Option ℕ
get_client heap [] id = none
get_client heap (p ∷ all_clients) id =
    if same_bytes (heap p).id id then some p else get_client heap all_clients id

unfoldable pub check_unique_id : Heap → List (ℕ × ℕ) → Bytes → Bool
check_unique_id heap [] id = true
check_unique_id heap ((socket, p) ∷ clients) id =
    if same_bytes (heap p).id id then false else check_unique_id heap clients id

-- The block that `malloc` gives for a new client, its address and its content: `id` and `online` are
-- written, `topics` and `pending_messages` are not. The content is `none` where what stands in these two
-- does not point to lists. server.cpp follows them at once, and a fault by that is counted here. `none` is
-- also an id that does not fit in its 11 bytes.
unfoldable pub add_client_to_clients :
    ServerState → Bytes → ℕ → ℕ × Option Client → Option ServerState
add_client_to_clients s id socket (fresh, content) = elim (get_client s.heap s.all_clients id) [
  | some p ↦ some (record s {
    heap = write_client p (record (s.heap p) { online = true }) s.heap;
    online_clients = insert socket p s.online_clients;
  })
  | none ↦ do
    id ← fits 11 id
    content ← content
    some (record s {
      heap = write_client fresh (record content { id = id; online = true }) s.heap;
      all_clients = fresh ∷ s.all_clients;
      online_clients = insert socket fresh s.online_clients;
    })
]

-- `add_string_to_list`
abbrev pub add_string_to_list : Bytes → List Bytes → List Bytes
add_string_to_list value list = value ∷ list
