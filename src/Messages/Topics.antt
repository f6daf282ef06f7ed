-- ===== src/Messages/Topics.antt =====
-- The topics of a client in Client-Server-TCP-UDP/helpers.cpp: `topic_list_in_client`, a linked list
-- that one client alone points to, is the list of its nodes.
pub mod Lookup
pub mod Refine
mod Tests
use communication_protocols.Base.{
  Bool, true, false, Option, none, some, List, [], ◌∷◌, Bytes, same_bytes,
}

pub record Topic : Type 0 where
  pub name : Bytes
  pub sf : Bool

-- The loop of `add_topic` that looks for the name: the list with the new `sf`, if the name is there.
unfoldable pub set_sf : Bytes → Bool → List Topic → Option (List Topic)
set_sf name sf [] = none
set_sf name sf (t ∷ topics) = elim (same_bytes t.name name) [
  | true ↦ some (record t { sf = sf } ∷ topics)
  | false ↦ elim (set_sf name sf topics) [ none ↦ none | some topics' ↦ some (t ∷ topics') ]
]

unfoldable pub add_topic : Bytes → Bool → List Topic → List Topic
add_topic name sf topics = elim (set_sf name sf topics) [
  | some topics' ↦ topics'
  | none ↦ record { name = name; sf = sf } ∷ topics
]

-- The loop of `remove_topic`: the node with the name is taken out of the chain.
unfoldable pub unlink : Bytes → List Topic → List Topic
unlink name [] = []
unlink name (t ∷ topics) = elim (same_bytes t.name name) [
  | true ↦ topics
  | false ↦ t ∷ unlink name topics
]

-- The head of the list is a case of its own.
unfoldable pub remove_topic : Bytes → List Topic → List Topic
remove_topic name [] = []
remove_topic name (t ∷ topics) = elim (same_bytes t.name name) [
  | true ↦ topics
  | false ↦ unlink name (t ∷ topics)
]

unfoldable pub check_subscription : List Topic → Bytes → Bool
check_subscription [] name = false
check_subscription (t ∷ topics) name = elim (same_bytes t.name name) [
  | true ↦ true
  | false ↦ check_subscription topics name
]

unfoldable pub check_sf_active : List Topic → Bytes → Bool
check_sf_active [] name = false
check_sf_active (t ∷ topics) name = elim (same_bytes name t.name) [
  | true ↦ t.sf
  | false ↦ check_sf_active topics name
]
