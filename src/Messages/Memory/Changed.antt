-- ===== src/Messages/Memory/Changed.antt =====
-- Subscriptions and unsubscriptions of one client of helpers.cpp, on its topics in memory.
use communication_protocols.Base.{
  ◌>>=◌, ℕ, suc, ◌+◌, ◌≡◌, ◌≢◌, refl, ap, ◌∙◌, ◌<◌, ◌≤◌, Bool, false, Option, none, some, List, [],
  ◌∷◌, map, length, All, arith, Bytes,
}
use communication_protocols.Messages.Memory.{Memory, add_topic_node, remove_topic_node}
use communication_protocols.Messages.Memory.Changes.{Elsewhere}
use communication_protocols.Messages.Memory.Lists.{TopicNodes, topic_addresses, topics_in, Topics}
use communication_protocols.Messages.Memory.Added.{Topics-listed, add_topic_node-add_topic}
use communication_protocols.Messages.Memory.Removed.{remove_topic_node-remove_topic}
use communication_protocols.Messages.Server.Clients.{listed, Distinct}
use communication_protocols.Messages.Topics.{Topic, set_sf, add_topic, unlink, remove_topic}
use communication_protocols.Messages.Topics.Lookup.{IsMap, flag}
use communication_protocols.Messages.Topics.Refine.{
  Change, subscribe, unsubscribe, changed, changed-flag, spec,
}

set_sf-length :
    (name : Bytes) (sf : Bool) (topics topics' : List Topic)
    → set_sf name sf topics ≡ some topics'
    → length topics' ≡ length topics
unfolding set_sf
set_sf-length name sf [] topics' h = absurd (ground arith)
set_sf-length name sf (t ∷ topics) topics' h = grind (arith, set_sf-length name sf topics)

add_topic-length :
    (name : Bytes) (sf : Bool) (topics : List Topic)
    → length (add_topic name sf topics) ≤ suc (length topics)
unfolding add_topic
add_topic-length name sf topics = grind (arith, set_sf-length name sf topics)

unlink-length : (name : Bytes) (topics : List Topic) → length (unlink name topics) ≤ length topics
unfolding unlink
unlink-length name [] = omega arith
unlink-length name (t ∷ topics) = ground (arith, unlink-length name topics)

remove_topic-length :
    (name : Bytes) (topics : List Topic) → length (remove_topic name topics) ≤ length topics
unfolding remove_topic
remove_topic-length name [] = omega arith
remove_topic-length name (t ∷ topics) = ground (arith, unlink-length name (t ∷ topics))

length-topics_in : (nodes : TopicNodes) → length (topics_in nodes) ≡ length nodes
length-topics_in [] = refl
length-topics_in (c ∷ nodes) = ap suc (length-topics_in nodes)

-- Each change, with the address that `malloc` gives if it makes a new node.
abbrev pub Placed : Type 0
Placed = List (ℕ × Change)

abbrev pub places : Placed → List ℕ
places = map (λ c. c.0)

abbrev pub changes_of : Placed → List Change
changes_of = map (λ c. c.1)

unfoldable pub changed_nodes : ℕ → Placed → ℕ → Memory → Option (ℕ × Memory)
changed_nodes n [] p m = some (p, m)
changed_nodes n ((fresh, subscribe name sf) ∷ placed) p m = do
  (p, m) ← add_topic_node n fresh name sf p m
  changed_nodes n placed p m
changed_nodes n ((fresh, unsubscribe name) ∷ placed) p m = do
  (p, m) ← remove_topic_node n name p m
  changed_nodes n placed p m

-- Addresses of no block.
abbrev pub AreNew : Memory → List ℕ → Type 0
AreNew m = All (λ a. (a ≢ 0) × (m a ≡ none))

AreNew-Elsewhere :
    (m m' : Memory) (p : ℕ) (nodes : TopicNodes) (fresh : ℕ) (addresses : List ℕ)
    → Topics m p nodes
    → Elsewhere (fresh ∷ topic_addresses nodes) m m'
    → listed fresh addresses ≡ false
    → AreNew m addresses
    → AreNew m' addresses
unfolding listed
AreNew-Elsewhere m m' p nodes fresh [] c keep out new = tt
AreNew-Elsewhere m m' p nodes fresh (a ∷ addresses) c keep out ((nz, e), new) =
    let away = Topics-listed m p a nodes c e in
    (
      (nz, keep a (ground arith) ∙ e),
      AreNew-Elsewhere m m' p nodes fresh addresses c keep (ground arith) new,
    )

-- The list in memory, once the changes are done.
abbrev ChangedTo : ℕ → Placed → ℕ → Memory → List Topic → Type 0
ChangedTo n placed p m topics =
    (q : ℕ) × (m' : Memory) × (nodes' : TopicNodes) × (changed_nodes n placed p m ≡ some (q, m'))
    × Topics m' q nodes'
    × Distinct (topic_addresses nodes')
    × (topics_in nodes' ≡ topics)

changed_nodes-changed :
    (n : ℕ) (placed : Placed) (p : ℕ) (m : Memory) (nodes : TopicNodes)
    → Topics m p nodes
    → Distinct (topic_addresses nodes)
    → AreNew m (places placed)
    → Distinct (places placed)
    → length nodes + length placed < n
    → ChangedTo n placed p m (changed (changes_of placed) (topics_in nodes))
unfolding changed_nodes changed Distinct
changed_nodes-changed n [] p m nodes c d new e fuel = (p, m, nodes, refl, c, d, refl)
changed_nodes-changed n ((fresh, subscribe name sf) ∷ placed) p m nodes c d ((nz, free), new)
      (out, e) fuel =
    let (q, m', nodes', f, c', same, d', keep) =
      add_topic_node-add_topic n fresh p name sf m nodes c d (omega arith) nz free in
    let longer : length nodes' ≤ suc (length nodes) = grind (
      arith,
      length-topics_in nodes,
      length-topics_in nodes',
      ap length same,
      add_topic-length name sf (topics_in nodes),
    ) in
    let new' = AreNew-Elsewhere m m' p nodes fresh (places placed) c keep out new in
    let (r, m'', nodes'', g, c'', d'', same') =
      changed_nodes-changed n placed q m' nodes' c' d' new' e (omega arith) in
    (
      r,
      m'',
      nodes'',
      rw (f, changed_nodes) g,
      c'',
      d'',
      same' ∙ ap (changed (changes_of placed)) same,
    )
changed_nodes-changed n ((fresh, unsubscribe name) ∷ placed) p m nodes c d ((nz, free), new)
      (out, e) fuel =
    let (q, m', nodes', f, c', same, d', keep, gone) =
      remove_topic_node-remove_topic n p name m nodes c d (omega arith) in
    let shorter : length nodes' ≤ length nodes = grind (
      arith,
      length-topics_in nodes,
      length-topics_in nodes',
      ap length same,
      remove_topic-length name (topics_in nodes),
    ) in
    let keep' : Elsewhere (fresh ∷ topic_addresses nodes) m m' =
      (λ a h. keep a (unfold listed in ground arith)) in
    let new' = AreNew-Elsewhere m m' p nodes fresh (places placed) c keep' out new in
    let (r, m'', nodes'', g, c'', d'', same') =
      changed_nodes-changed n placed q m' nodes' c' d' new' e (omega arith) in
    (
      r,
      m'',
      nodes'',
      rw (f, changed_nodes) g,
      c'',
      d'',
      same' ∙ ap (changed (changes_of placed)) same,
    )

-- Any subscriptions and unsubscriptions of a client whose topics stand in memory, at addresses of which
-- no two are the same and with no name twice, each with its own new block and with fuel for the
-- longest list: all come to an end without a fault, and the topics that then stand in memory have the
-- flags that the changes give on a map from names to flags.
pub changed_nodes-spec :
    (n : ℕ) (placed : Placed) (p : ℕ) (m : Memory) (nodes : TopicNodes)
    → Topics m p nodes
    → Distinct (topic_addresses nodes)
    → IsMap (topics_in nodes)
    → AreNew m (places placed)
    → Distinct (places placed)
    → length nodes + length placed < n
    → (q : ℕ) × (m' : Memory) × (nodes' : TopicNodes) × (changed_nodes n placed p m ≡ some (q, m'))
      × Topics m' q nodes'
      × Distinct (topic_addresses nodes')
      × ((name : Bytes)
          → flag (topics_in nodes') name ≡ spec (changes_of placed) (flag (topics_in nodes)) name)
changed_nodes-spec n placed p m nodes c d v new e fuel =
    let (q, m', nodes', f, c', d', same) =
      changed_nodes-changed n placed p m nodes c d new e fuel in
    let (v', flags) =
      changed-flag (changes_of placed) (topics_in nodes) (flag (topics_in nodes)) v
        (λ name. refl) in
    (q, m', nodes', f, c', d', (λ name. ap (λ topics. flag topics name) same ∙ flags name))
