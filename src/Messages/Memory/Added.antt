-- ===== src/Messages/Memory/Added.antt =====
-- `add_topic` and `add_string_to_list` of helpers.cpp in memory are the changes of the lists.
use communication_protocols.Base.{
  ℕ, zero, suc, ◌≡◌, ◌≢◌, refl, sym, ap, ◌∙◌, ◌<◌, inl, inr, ◌⊎◌, Bool, false, Bool-cases, none,
  some, List, [], ◌∷◌, ◌==◌, if◌then◌else◌, length, arith, Bytes, same_bytes,
}
use mathlib.Core.Path.{subst}
use communication_protocols.Messages.Memory.{
  topic_node, string_node, text_block, Memory, write_block, as_topic, add_string_node, set_sf_node,
  add_topic_node,
}
use communication_protocols.Messages.Memory.Changes.{
  write_block-Same, write_block_self, write_block-other, Elsewhere,
}
use communication_protocols.Messages.Memory.Lists.{
  TopicNodes, topic_addresses, topics_in, Topics, StringNodes, string_addresses, Strings,
  Topics-Same, Strings-Same,
}
use communication_protocols.Messages.Server.Clients.{listed, Distinct}
use communication_protocols.Messages.Topics.{Topic, set_sf, add_topic}

-- A list in memory that is the list `topics`, in the blocks of another one.
abbrev Rewritten : ℕ → TopicNodes → List Topic → Memory → Memory → Type 0
Rewritten p nodes topics m m' =
    (nodes' : TopicNodes) × Topics m' p nodes'
    × (topics_in nodes' ≡ topics)
    × (topic_addresses nodes' ≡ topic_addresses nodes)
    × Elsewhere (topic_addresses nodes) m m'

set_step :
    (n a next : ℕ) (name : Bytes) (sf : Bool) (t : Topic) (m : Memory)
    → a ≢ 0
    → m a ≡ some (topic_node t next)
    → set_sf_node (suc n) name sf a m ≡ (
        if same_bytes t.name name
        then some (some (write_block a (some (topic_node (record t { sf = sf }) next)) m))
        else set_sf_node n name sf next m)
unfolding set_sf_node as_topic
set_step n a next name sf t m nz e =
    let other : (a == 0) ≡ false = ground arith in
    rw (other, set_sf_node) (rw (e, set_sf_node) (ground arith))

set_sf_node-set_sf :
    (n p : ℕ) (name : Bytes) (sf : Bool) (m : Memory) (nodes : TopicNodes)
    → Topics m p nodes
    → Distinct (topic_addresses nodes)
    → length nodes < n
    → ((set_sf_node n name sf p m ≡ some none) × (set_sf name sf (topics_in nodes) ≡ none))
      ⊎ ((m' : Memory) × (topics : List Topic) × (set_sf_node n name sf p m ≡ some (some m'))
          × (set_sf name sf (topics_in nodes) ≡ some topics)
          × Rewritten p nodes topics m m')
unfolding set_sf_node set_sf listed Distinct
set_sf_node-set_sf zero p name sf m nodes c d fuel = absurd (omega arith)
set_sf_node-set_sf (suc n) p name sf m [] at d fuel = inl (rw (at, set_sf_node) refl, refl)
set_sf_node-set_sf (suc n) p name sf m ((a, t) ∷ nodes) (next, at, nz, e, c) (out, d) fuel =
    let step = set_step n a next name sf t m nz e in
    let rest = topic_addresses nodes in
    elim (Bool-cases (same_bytes t.name name)) [
      | inl found ↦
          let t' : Topic = record t { sf = sf } in
          let m' = write_block a (some (topic_node t' next)) m in
          inr (
            m',
            t' ∷ topics_in nodes,
            rw at (step ∙ rw found refl),
            rw (found, set_sf) refl,
            (
              (a, t') ∷ nodes,
              (
                next,
                at,
                nz,
                write_block_self a _ m,
                Topics-Same m m' next nodes (write_block-Same a _ m rest out) c,
              ),
              refl,
              refl,
              (λ b h. write_block-other a _ m b (ground arith)),
            ),
          )
      | inr different ↦ elim (set_sf_node-set_sf n next name sf m nodes c d (omega arith)) [
        | inl (f, g) ↦
            inl (rw at (step ∙ rw different f), rw (different, set_sf) (rw (g, set_sf) refl))
        | inr (m', topics, f, g, (nodes', c', same, places, keep)) ↦ inr (
          m',
          t ∷ topics,
          rw at (step ∙ rw different f),
          rw (different, set_sf) (rw (g, set_sf) refl),
          (
            (a, t) ∷ nodes',
            (next, at, nz, keep a out ∙ e, c'),
            ap (λ l. t ∷ l) same,
            ap (λ l. a ∷ l) places,
            (λ b h. keep b (ground arith)),
          ),
        )
      ]
    ]

-- A block at an address of the list.
pub Topics-listed :
    (m : Memory) (p a : ℕ) (nodes : TopicNodes)
    → Topics m p nodes
    → m a ≡ none
    → listed a (topic_addresses nodes) ≡ false
unfolding listed
Topics-listed m p a [] at e = refl
Topics-listed m p a ((b, t) ∷ nodes) (next, at, nz, f, c) e =
    let rest = Topics-listed m next a nodes c e in
    elim (Bool-cases (b == a)) [
      | inl same ↦ absurd (ground (arith, ap m))
      | inr other ↦ ground arith
    ]

-- A list of topics with no address twice, a new block at `fresh`, and fuel for the list: `add_topic`
-- comes to an end without a fault, and what it returns is the list of `add_topic`, in blocks of which
-- no two are the same. Only the blocks of the list and the new one may have changed.
pub add_topic_node-add_topic :
    (n fresh p : ℕ) (name : Bytes) (sf : Bool) (m : Memory) (nodes : TopicNodes)
    → Topics m p nodes
    → Distinct (topic_addresses nodes)
    → length nodes < n
    → fresh ≢ 0
    → m fresh ≡ none
    → (q : ℕ) × (m' : Memory) × (nodes' : TopicNodes) × (add_topic_node n fresh name sf p m
        ≡ some (q, m'))
      × Topics m' q nodes'
      × (topics_in nodes' ≡ add_topic name sf (topics_in nodes))
      × Distinct (topic_addresses nodes')
      × Elsewhere (fresh ∷ topic_addresses nodes) m m'
unfolding add_topic_node add_topic listed Distinct
add_topic_node-add_topic n fresh p name sf m nodes c d fuel nz free =
    elim (set_sf_node-set_sf n p name sf m nodes c d fuel) [
      | inl (f, g) ↦
          let t : Topic = record { name = name; sf = sf } in
          let out = Topics-listed m p fresh nodes c free in
          (
            fresh,
            write_block fresh (some (topic_node t p)) m,
            (fresh, t) ∷ nodes,
            rw (f, add_topic_node) refl,
            (
              p,
              refl,
              nz,
              write_block_self fresh _ m,
              Topics-Same m _ p nodes (write_block-Same fresh _ m (topic_addresses nodes) out) c,
            ),
            rw (g, add_topic) refl,
            (out, d),
            (λ a h. write_block-other fresh _ m a (ground arith)),
          )
      | inr (m', topics, f, g, (nodes', c', same, places, keep)) ↦ (
        p,
        m',
        nodes',
        rw (f, add_topic_node) refl,
        c',
        rw (g, add_topic) same,
        subst Distinct (sym places) d,
        (λ a h. keep a (ground arith)),
      )
    ]

-- A new text in front of a list of texts, at two new blocks.
pub add_string_node-add_string_to_list :
    (node copy p : ℕ) (value : Bytes) (m : Memory) (nodes : StringNodes)
    → Strings m p nodes
    → Distinct (node ∷ copy ∷ string_addresses nodes)
    → node ≢ 0
    → copy ≢ 0
    → (m' : Memory) × (add_string_node node copy value p m ≡ (node, m'))
      × Strings m' node ((node, copy, value) ∷ nodes)
      × Elsewhere (node ∷ copy ∷ []) m m'
unfolding add_string_node listed Distinct
add_string_node-add_string_to_list node copy p value m nodes c (apart, (out, d)) nz nz' =
    let rest = string_addresses nodes in
    let m1 = write_block copy (some (text_block value)) m in
    let m' = write_block node (some (string_node copy p)) m1 in
    let other : (node == copy) ≡ false = ground arith in
    let c1 = Strings-Same m m1 p nodes (write_block-Same copy _ m rest out) c in
    (
      m',
      refl,
      (
        p,
        refl,
        nz,
        nz',
        write_block_self node _ m1,
        write_block-other node _ m1 copy other ∙ write_block_self copy _ m,
        Strings-Same m1 m' p nodes (write_block-Same node _ m1 rest (ground arith)) c1,
      ),
      (λ a h.
          write_block-other node _ m1 a (ground arith)
          ∙ write_block-other copy _ m a (ground arith)),
    )
