-- ===== src/Messages/Memory/Lists.antt =====
-- The lists of helpers.cpp that stand in memory.
use communication_protocols.Base.{ℕ, ◌≡◌, ◌≢◌, ◌∙◌, Bool, some, List, [], ◌∷◌, ◌++◌, map, Bytes}
use communication_protocols.Messages.Memory.{
  topic_node, string_node, text_block, client_block, client_node, Memory,
}
use communication_protocols.Messages.Memory.Changes.{Same, Same-head, Same-tail}
use communication_protocols.Messages.Topics.{Topic}

-- A list of topics: the addresses of its nodes, and what they hold.
abbrev pub TopicNodes : Type 0
TopicNodes = List (ℕ × Topic)

abbrev pub topic_addresses : TopicNodes → List ℕ
topic_addresses = map (λ c. c.0)

abbrev pub topics_in : TopicNodes → List Topic
topics_in = map (λ c. c.1)

abbrev pub Topics : Memory → ℕ → TopicNodes → Type 0
Topics m p [] = p ≡ 0
Topics m p ((a, t) ∷ nodes) =
    (next : ℕ) × (p ≡ a) × (a ≢ 0) × (m a ≡ some (topic_node t next)) × Topics m next nodes

-- A list of texts: the addresses of its nodes and of their texts, and the texts.
abbrev pub StringNodes : Type 0
StringNodes = List (ℕ × ℕ × Bytes)

abbrev pub string_addresses : StringNodes → List ℕ
string_addresses [] = []
string_addresses ((a, v, text) ∷ nodes) = v ∷ a ∷ string_addresses nodes

abbrev pub texts_in : StringNodes → List Bytes
texts_in = map (λ c. c.2)

abbrev pub Strings : Memory → ℕ → StringNodes → Type 0
Strings m p [] = p ≡ 0
Strings m p ((a, v, text) ∷ nodes) =
    (next : ℕ) × (p ≡ a)
    × (a ≢ 0)
    × (v ≢ 0)
    × (m a ≡ some (string_node v next))
    × (m v ≡ some (text_block text))
    × Strings m next nodes

pub Topics-Same :
    (m m' : Memory) (p : ℕ) (nodes : TopicNodes)
    → Same (topic_addresses nodes) m m'
    → Topics m p nodes
    → Topics m' p nodes
Topics-Same m m' p [] s c = c
Topics-Same m m' p ((a, t) ∷ nodes) s (next, at, nz, e, c) =
    let rest = topic_addresses nodes in
    (
      next,
      at,
      nz,
      Same-head a rest m m' s ∙ e,
      Topics-Same m m' next nodes (Same-tail a rest m m' s) c,
    )

pub Strings-Same :
    (m m' : Memory) (p : ℕ) (nodes : StringNodes)
    → Same (string_addresses nodes) m m'
    → Strings m p nodes
    → Strings m' p nodes
Strings-Same m m' p [] s c = c
Strings-Same m m' p ((a, v, text) ∷ nodes) s (next, at, nz, nz', e, e', c) =
    let rest = string_addresses nodes in
    let tail = Same-tail v (a ∷ rest) m m' s in
    (
      next,
      at,
      nz,
      nz',
      Same-head a rest m m' tail ∙ e,
      Same-head v (a ∷ rest) m m' s ∙ e',
      Strings-Same m m' next nodes (Same-tail a rest m m' tail) c,
    )

-- A node of the list of clients: its address, the client's, and what the client points to.
pub record ClientNode : Type 0 where
  pub node : ℕ
  pub subscriber : ℕ
  pub id : Bytes
  pub online : Bool
  pub topics : TopicNodes
  pub pending_messages : StringNodes

abbrev pub ClientAt : Memory → ClientNode → Type 0
ClientAt m c =
    (topics : ℕ) × (pending_messages : ℕ) × (m c.subscriber
      ≡ some (client_block c.id c.online topics pending_messages))
    × Topics m topics c.topics
    × Strings m pending_messages c.pending_messages

abbrev pub Clients : Memory → ℕ → List ClientNode → Type 0
Clients m p [] = p ≡ 0
Clients m p (c ∷ clients) =
    (next : ℕ) × (p ≡ c.node)
    × (c.node ≢ 0)
    × (m c.node ≡ some (client_node c.subscriber next))
    × ClientAt m c
    × Clients m next clients

-- What the clients point to, and the nodes of their list: all but the clients.
abbrev pub owned_by : ClientNode → List ℕ
owned_by c = string_addresses c.pending_messages ++ topic_addresses c.topics

abbrev pub owned : List ClientNode → List ℕ
owned [] = []
owned (c ∷ clients) = owned_by c ++ c.node ∷ owned clients

abbrev pub subscribers : List ClientNode → List ℕ
subscribers = map (λ c. c.subscriber)
