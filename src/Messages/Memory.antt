-- ===== src/Messages/Memory.antt =====
-- The linked lists of Client-Server-TCP-UDP/helpers.cpp in memory: blocks that `malloc` gives and
-- `free` takes back. Address 0 is NULL, and `none` is a fault: an access to a block that is not
-- allocated, or is of another type, a second `free`, or a loop that runs out of fuel. The addresses
-- that `malloc` gives are arguments. What the functions print is left out.
pub mod Changes
pub mod Lists
pub mod Added
pub mod Removed
pub mod Changed
pub mod Free
pub mod FreeClients
pub mod Members
pub mod Deleted
mod Tests
use communication_protocols.Base.{
  ◌>>=◌, ℕ, zero, suc, Bool, true, false, Option, none, some, Bytes, ◌==◌, if◌then◌else◌,
  same_bytes,
}
use communication_protocols.Messages.Topics.{Topic}

-- `topic_list_in_client`, `string_list`, `client` and `client_list`, with the addresses they point
-- to, and the text of a `value`.
pub data Block : Type 0 where
  topic_node : Topic → ℕ → Block
  string_node : ℕ → ℕ → Block
  text_block : Bytes → Block
  client_block : Bytes → Bool → ℕ → ℕ → Block
  client_node : ℕ → ℕ → Block

abbrev pub Memory : Type 0
Memory = ℕ → Option Block

unfoldable pub write_block : ℕ → Option Block → Memory → Memory
write_block p block m a = if a == p then block else m a

-- `free`: nothing happens to NULL.
unfoldable pub free_block : ℕ → Memory → Option Memory
free_block p m = elim (p == 0) [
  | true ↦ some m
  | false ↦ do block ← m p; some (write_block p none m)
]

unfoldable pub as_topic : Block → Option (Topic × ℕ)
as_topic (topic_node t next) = some (t, next)
as_topic _ = none

unfoldable pub as_string : Block → Option (ℕ × ℕ)
as_string (string_node value next) = some (value, next)
as_string _ = none

-- The `topics` and the `pending_messages` of a client.
unfoldable pub as_client : Block → Option (ℕ × ℕ)
as_client (client_block id online topics pending_messages) = some (topics, pending_messages)
as_client _ = none

unfoldable pub as_client_node : Block → Option (ℕ × ℕ)
as_client_node (client_node subscriber next) = some (subscriber, next)
as_client_node _ = none

-- `add_string_to_list`, with the addresses of the new node and of the copied text.
unfoldable pub add_string_node : ℕ → ℕ → Bytes → ℕ → Memory → ℕ × Memory
add_string_node node copy value list m = (
  node,
  write_block node (some (string_node copy list)) (write_block copy (some (text_block value)) m),
)

-- The loop of `free_string_list`, which is also the first one of `free_client`.
unfoldable pub free_string_list : ℕ → ℕ → Memory → Option Memory
free_string_list zero aux m = none
free_string_list (suc n) aux m = elim (aux == 0) [
  | true ↦ some m
  | false ↦ do
    block ← m aux
    (value, next) ← as_string block
    m ← free_block value m
    m ← free_block aux m
    free_string_list n next m
]

-- The loop of `add_topic`: the memory with the new `sf`, if the name is there.
unfoldable pub set_sf_node : ℕ → Bytes → Bool → ℕ → Memory → Option (Option Memory)
set_sf_node zero name sf aux m = none
set_sf_node (suc n) name sf aux m = elim (aux == 0) [
  | true ↦ some none
  | false ↦ do
    block ← m aux
    (t, next) ← as_topic block
    elim (same_bytes t.name name) [
      | true ↦ some (some (write_block aux (some (topic_node (record t { sf = sf }) next)) m))
      | false ↦ set_sf_node n name sf next m
    ]
]

unfoldable pub add_topic_node : ℕ → ℕ → Bytes → Bool → ℕ → Memory → Option (ℕ × Memory)
add_topic_node n fresh name sf topics m = do
  found ← set_sf_node n name sf topics m
  elim found [
    | some m ↦ some (topics, m)
    | none ↦
        let t : Topic = record { name = name; sf = sf } in
        some (fresh, write_block fresh (some (topic_node t topics)) m)
  ]

-- The loop of `remove_topic`.
unfoldable pub unlink_node : ℕ → Bytes → ℕ → ℕ → Memory → Option Memory
unlink_node zero name prev_aux aux m = none
unlink_node (suc n) name prev_aux aux m = elim (aux == 0) [
  | true ↦ some m
  | false ↦ do
    block ← m aux
    (t, next) ← as_topic block
    elim (same_bytes t.name name) [
      | true ↦ do
        before ← m prev_aux
        (u, _) ← as_topic before
        free_block aux (write_block prev_aux (some (topic_node u next)) m)
      | false ↦ unlink_node n name aux next m
    ]
]

unfoldable pub remove_topic_node : ℕ → Bytes → ℕ → Memory → Option (ℕ × Memory)
remove_topic_node n name topics m = elim (topics == 0) [
  | true ↦ some (0, m)
  | false ↦ do
    block ← m topics
    (t, next) ← as_topic block
    elim (same_bytes t.name name) [
      | true ↦ do m ← free_block topics m; some (next, m)
      | false ↦ do m ← unlink_node n name topics topics m; some (topics, m)
    ]
]

-- The second loop of `free_client`.
unfoldable pub free_topics : ℕ → ℕ → Memory → Option Memory
free_topics zero aux m = none
free_topics (suc n) aux m = elim (aux == 0) [
  | true ↦ some m
  | false ↦ do block ← m aux; (t, next) ← as_topic block; m ← free_block aux m; free_topics n next m
]

-- What the client points to is freed, and not the client.
unfoldable pub free_client : ℕ → ℕ → Memory → Option Memory
free_client n p m = do
  block ← m p
  (topics, pending_messages) ← as_client block
  m ← free_string_list n pending_messages m
  block ← m p
  (topics, pending_messages) ← as_client block
  free_topics n topics m

-- The fuel bounds the list of the clients and each list of a client.
unfoldable pub free_clients : ℕ → ℕ → ℕ → Memory → Option Memory
free_clients zero k aux m = none
free_clients (suc n) k aux m = elim (aux == 0) [
  | true ↦ some m
  | false ↦ do
    block ← m aux
    (subscriber, next) ← as_client_node block
    m ← free_client k subscriber m
    m ← free_block aux m
    free_clients n k next m
]
