-- ===== src/Messages/Memory/Removed.antt =====
-- `remove_topic` of helpers.cpp in memory is the change of the list.
use communication_protocols.Base.{
  ◌>>=◌, ℕ, zero, suc, ◌≡◌, ◌≢◌, refl, sym, ap, ◌∙◌, ◌<◌, inl, inr, true, false, Bool-cases, none,
  some, List, [], ◌∷◌, ◌==◌, if◌then◌else◌, length, arith, Bytes, same_bytes,
}
use communication_protocols.Messages.Memory.{
  topic_node, Memory, write_block, as_topic, free_block, unlink_node, remove_topic_node,
}
use communication_protocols.Messages.Memory.Changes.{
  write_block-Same, write_block_self, write_block-other, free_block-Freed, Freed-Same, Elsewhere,
}
use communication_protocols.Messages.Memory.Lists.{
  TopicNodes, topic_addresses, topics_in, Topics, Topics-Same,
}
use communication_protocols.Messages.Server.Clients.{listed, Distinct}
use communication_protocols.Messages.Topics.{Topic, unlink, remove_topic}

-- What is left of a list in memory: the blocks of the others are free.
abbrev Left : ℕ → TopicNodes → TopicNodes → List Topic → Memory → Type 0
Left q nodes nodes' topics m =
    Topics m q nodes'
    × (topics_in nodes' ≡ topics)
    × Distinct (topic_addresses nodes')
    × ((a : ℕ)
        → listed a (topic_addresses nodes) ≡ false
        → listed a (topic_addresses nodes') ≡ false)
    × ((a : ℕ)
        → listed a (topic_addresses nodes) ≡ true
        → listed a (topic_addresses nodes') ≡ false
        → m a ≡ none)

unlink_step :
    (n prev a next : ℕ) (name : Bytes) (t u : Topic) (m : Memory) (old : ℕ)
    → a ≢ 0
    → m a ≡ some (topic_node t next)
    → m prev ≡ some (topic_node u old)
    → unlink_node (suc n) name prev a m ≡ (
        if same_bytes t.name name
        then free_block a (write_block prev (some (topic_node u next)) m)
        else unlink_node n name a next m)
unfolding unlink_node as_topic
unlink_step n prev a next name t u m old nz e f =
    let other : (a == 0) ≡ false = ground arith in
    rw (other, unlink_node) (rw (e, unlink_node) (ground arith))

-- The loop of `remove_topic`, from a node before the list on.
unlink_node-unlink :
    (n prev p : ℕ) (name : Bytes) (u : Topic) (m : Memory) (nodes : TopicNodes)
    → m prev ≡ some (topic_node u p)
    → Topics m p nodes
    → Distinct (prev ∷ topic_addresses nodes)
    → length nodes < n
    → (m' : Memory) × (q : ℕ) × (nodes' : TopicNodes) × (unlink_node n name prev p m ≡ some m')
      × (m' prev ≡ some (topic_node u q))
      × Elsewhere (prev ∷ topic_addresses nodes) m m'
      × Left q nodes nodes' (unlink name (topics_in nodes)) m'
unfolding unlink_node unlink listed Distinct
unlink_node-unlink zero prev p name u m nodes before c d fuel = absurd (omega arith)
unlink_node-unlink (suc n) prev p name u m [] before at d fuel = (
  m,
  0,
  [],
  rw (at, unlink_node) refl,
  rw (sym at) before,
  (λ a h. refl),
  (refl, refl, tt, (λ a h. refl), (λ a h h'. absurd (ground arith))),
)
unlink_node-unlink (suc n) prev p name u m ((a, t) ∷ nodes) before (next, at, nz, e, c)
      (apart, (out, d)) fuel =
    let step = unlink_step n prev a next name t u m p nz e before in
    let rest = topic_addresses nodes in
    let away : listed prev rest ≡ false = ground arith in
    let other : (prev == a) ≡ false = ground arith in
    elim (Bool-cases (same_bytes t.name name)) [
      | inl found ↦
          let m1 = write_block prev (some (topic_node u next)) m in
          let e1 = write_block-other prev (some (topic_node u next)) m a other in
          let (m', f, freed) = free_block-Freed a _ m1 nz (e1 ∙ e) in
          let c1 = Topics-Same m m1 next nodes (write_block-Same prev _ m rest away) c in
          let still = Freed-Same (a ∷ []) rest m1 m' (out, d) freed in
          (
            m',
            next,
            nodes,
            rw at (step ∙ rw found f),
            freed prev
                ∙ (let self = write_block_self prev (some (topic_node u next)) m in ground arith),
            (λ b h.
                freed b
                ∙ (let same =
                      write_block-other prev (some (topic_node u next)) m b (ground arith) in
                    ground arith)),
            (
              Topics-Same m1 m' next nodes still c1,
              rw (found, unlink) refl,
              d,
              (λ b h. ground arith),
              (λ b h h'. freed b ∙ ground arith),
            ),
          )
      | inr different ↦
          let (m', q, nodes', f, before', keep, (c', same, d', sub, gone)) =
            unlink_node-unlink n a next name t m nodes e c (out, d) (omega arith) in
          (
            m',
            a,
            (a, t) ∷ nodes',
            rw at (step ∙ rw different f),
            keep prev (ground arith) ∙ rw (sym at) before,
            (λ b h. keep b (ground arith)),
            (
              (q, refl, nz, before', c'),
              rw (different, unlink) (ap (λ l. t ∷ l) same),
              (sub a out, d'),
              (λ b h. let inner = sub b in ground arith),
              (λ b h h'. gone b (ground arith) (ground arith)),
            ),
          )
    ]

remove_step :
    (n a next : ℕ) (name : Bytes) (t : Topic) (m : Memory)
    → a ≢ 0
    → m a ≡ some (topic_node t next)
    → remove_topic_node n name a m ≡ (
        if same_bytes t.name name
        then (do m ← free_block a m; some (next, m))
        else (do m ← unlink_node n name a a m; some (a, m)))
unfolding remove_topic_node as_topic
remove_step n a next name t m nz e =
    let other : (a == 0) ≡ false = ground arith in
    rw (other, remove_topic_node) (rw (e, remove_topic_node) (ground arith))

-- A list of topics with no address twice, and fuel for the list: `remove_topic` comes to an end without
-- a fault, and what it returns is the list of `remove_topic`, in blocks of which no two are the same.
-- No other block changes, and those of the nodes that are taken out are freed.
pub remove_topic_node-remove_topic :
    (n p : ℕ) (name : Bytes) (m : Memory) (nodes : TopicNodes)
    → Topics m p nodes
    → Distinct (topic_addresses nodes)
    → length nodes < n
    → (q : ℕ) × (m' : Memory) × (nodes' : TopicNodes) × (remove_topic_node n name p m
        ≡ some (q, m'))
      × Topics m' q nodes'
      × (topics_in nodes' ≡ remove_topic name (topics_in nodes))
      × Distinct (topic_addresses nodes')
      × Elsewhere (topic_addresses nodes) m m'
      × ((a : ℕ)
          → listed a (topic_addresses nodes) ≡ true
          → listed a (topic_addresses nodes') ≡ false
          → m' a ≡ none)
unfolding remove_topic_node remove_topic unlink listed Distinct
remove_topic_node-remove_topic zero p name m nodes c d fuel = absurd (omega arith)
remove_topic_node-remove_topic (suc n) p name m [] at d fuel = (
  0,
  m,
  [],
  rw (at, remove_topic_node) refl,
  refl,
  refl,
  tt,
  (λ a h. refl),
  (λ a h h'. absurd (ground arith)),
)
remove_topic_node-remove_topic (suc n) p name m ((a, t) ∷ nodes) (next, at, nz, e, c) (out, d)
      fuel =
    let step = remove_step (suc n) a next name t m nz e in
    let rest = topic_addresses nodes in
    elim (Bool-cases (same_bytes t.name name)) [
      | inl found ↦
          let (m', f, freed) = free_block-Freed a _ m nz e in
          (
            next,
            m',
            nodes,
            rw at (step ∙ rw found (rw f refl)),
            Topics-Same m m' next nodes (Freed-Same (a ∷ []) rest m m' (out, d) freed) c,
            rw (found, remove_topic) refl,
            d,
            (λ b h. freed b ∙ ground arith),
            (λ b h h'. freed b ∙ ground arith),
          )
      | inr different ↦
          let (m', q, nodes', f, before, keep, (c', same, d', sub, gone)) =
            unlink_node-unlink n a next name t m nodes e c (out, d) (omega arith) in
          let rest_of_loop : unlink_node (suc n) name a a m ≡ some m' =
            unlink_step n a a next name t t m next nz e e ∙ rw different f in
          (
            a,
            m',
            (a, t) ∷ nodes',
            rw at (step ∙ rw different (rw rest_of_loop refl)),
            (q, refl, nz, before, c'),
            rw (different, remove_topic) (rw (different, unlink) (ap (λ l. t ∷ l) same)),
            (sub a out, d'),
            keep,
            (λ b h h'. gone b (ground arith) (ground arith)),
          )
    ]
