-- ===== src/Messages/Memory/Free.antt =====
-- `free_string_list` and `free_client` of helpers.cpp: what they free.
use communication_protocols.Base.{
  ℕ, zero, suc, ◌≡◌, ◌≢◌, refl, ◌∙◌, ◌<◌, true, false, some, List, [], ◌∷◌, ◌++◌, ◌==◌, length,
  arith,
}
use communication_protocols.Messages.Memory.{
  topic_node, string_node, Memory, as_topic, as_string, as_client, free_block, free_string_list,
  free_topics, free_client,
}
use communication_protocols.Messages.Memory.Changes.{
  Freed, free_block-Freed, listed-append, Freed-append, Distinct-append_left, Distinct-append_right,
  Same, Same-head, Same-tail, Freed-Same,
}
use communication_protocols.Messages.Memory.Lists.{
  TopicNodes, topic_addresses, Topics, StringNodes, string_addresses, Strings, Topics-Same,
  Strings-Same, ClientNode, ClientAt, owned_by,
}
use communication_protocols.Messages.Server.Clients.{listed, Distinct}
use communication_protocols.Messages.Topics.{Topic}

string_step :
    (n a v next : ℕ) (m m' m'' : Memory)
    → a ≢ 0
    → m a ≡ some (string_node v next)
    → free_block v m ≡ some m'
    → free_block a m' ≡ some m''
    → free_string_list (suc n) a m ≡ free_string_list n next m''
unfolding free_string_list as_string
string_step n a v next m m' m'' nz e f g =
    let other : (a == 0) ≡ false = ground arith in
    rw (other, free_string_list)
      (rw (e, free_string_list) (rw (f, free_string_list) (rw (g, free_string_list) refl)))

-- The nodes and the texts of a list are freed, and nothing else.
pub free_string_list-Freed :
    (n p : ℕ) (m : Memory) (nodes : StringNodes)
    → Strings m p nodes
    → Distinct (string_addresses nodes)
    → length nodes < n
    → (m' : Memory) × (free_string_list n p m ≡ some m') × Freed (string_addresses nodes) m m'
unfolding free_string_list listed Distinct
free_string_list-Freed zero p m nodes c d fuel = absurd (omega arith)
free_string_list-Freed (suc n) p m [] at d fuel = (m, rw (at, free_string_list) refl, (λ a. refl))
free_string_list-Freed (suc n) p m ((a, v, text) ∷ nodes) (next, at, nz, nz', e, e', c)
      (d, (d', d'')) fuel =
    let rest = string_addresses nodes in
    let (m1, f1, freed1) = free_block-Freed v _ m nz' e' in
    let still = Freed-Same (v ∷ []) (a ∷ rest) m m1 (d, (d', d'')) freed1 in
    let (m2, f2, freed2) = free_block-Freed a _ m1 nz (Same-head a rest m m1 still ∙ e) in
    let freed = Freed-append (v ∷ []) (a ∷ []) m m1 m2 freed1 freed2 in
    let still2 = Freed-Same (a ∷ []) rest m1 m2 (d', d'') freed2 in
    let c1 = Strings-Same m m1 next nodes (Same-tail a rest m m1 still) c in
    let (m3, f3, freed3) =
      free_string_list-Freed n next m2 nodes (Strings-Same m1 m2 next nodes still2 c1) d''
        (omega arith) in
    (
      m3,
      rw at (string_step n a v next m m1 m2 nz e f1 f2 ∙ f3),
      Freed-append (v ∷ a ∷ []) rest m m2 m3 freed freed3,
    )

topic_step :
    (n a next : ℕ) (t : Topic) (m m' : Memory)
    → a ≢ 0
    → m a ≡ some (topic_node t next)
    → free_block a m ≡ some m'
    → free_topics (suc n) a m ≡ free_topics n next m'
unfolding free_topics as_topic
topic_step n a next t m m' nz e f =
    let other : (a == 0) ≡ false = ground arith in
    rw (other, free_topics) (rw (e, free_topics) (rw (f, free_topics) refl))

-- The nodes of a list are freed, and nothing else.
pub free_topics-Freed :
    (n p : ℕ) (m : Memory) (nodes : TopicNodes)
    → Topics m p nodes
    → Distinct (topic_addresses nodes)
    → length nodes < n
    → (m' : Memory) × (free_topics n p m ≡ some m') × Freed (topic_addresses nodes) m m'
unfolding free_topics listed Distinct
free_topics-Freed zero p m nodes c d fuel = absurd (omega arith)
free_topics-Freed (suc n) p m [] at d fuel = (m, rw (at, free_topics) refl, (λ a. refl))
free_topics-Freed (suc n) p m ((a, t) ∷ nodes) (next, at, nz, e, c) (d, d') fuel =
    let rest = topic_addresses nodes in
    let (m1, f1, freed1) = free_block-Freed a _ m nz e in
    let still = Freed-Same (a ∷ []) rest m m1 (d, d') freed1 in
    let (m2, f2, freed2) =
      free_topics-Freed n next m1 nodes (Topics-Same m m1 next nodes still c) d' (omega arith) in
    (
      m2,
      rw at (topic_step n a next t m m1 nz e f1 ∙ f2),
      Freed-append (a ∷ []) rest m m1 m2 freed1 freed2,
    )

-- Addresses that are none of the others.
abbrev pub Apart : List ℕ → List ℕ → Type 0
Apart kept freed = (a : ℕ) → listed a kept ≡ true → listed a freed ≡ false

pub Apart-Same :
    (kept freed : List ℕ) (m m' : Memory) → Apart kept freed → Freed freed m m' → Same kept m m'
Apart-Same kept freed m m' apart f a h = rw (f a) (rw (apart a h) refl)

pub Same-left : (xs ys : List ℕ) (m m' : Memory) → Same (xs ++ ys) m m' → Same xs m m'
Same-left xs ys m m' s a h = s a (rw (listed-append a xs ys) (ground arith))

pub Same-right : (xs ys : List ℕ) (m m' : Memory) → Same (xs ++ ys) m m' → Same ys m m'
Same-right xs ys m m' s a h = s a (rw (listed-append a xs ys) (ground arith))

-- All that a client points to is freed, and nothing else.
pub free_client-Freed :
    (n : ℕ) (m : Memory) (c : ClientNode)
    → ClientAt m c
    → Distinct (owned_by c)
    → listed c.subscriber (owned_by c) ≡ false
    → length c.pending_messages < n
    → length c.topics < n
    → (m' : Memory) × (free_client n c.subscriber m ≡ some m') × Freed (owned_by c) m m'
unfolding free_client as_client
free_client-Freed n m c (topics, pending, e, ts, ps) d apart fuel fuel' =
    let strings = string_addresses c.pending_messages in
    let nodes = topic_addresses c.topics in
    let (m1, f1, freed1) =
      free_string_list-Freed n pending m c.pending_messages ps
        (Distinct-append_left strings nodes d) fuel in
    let still = Freed-Same strings nodes m m1 d freed1 in
    let (m2, f2, freed2) =
      free_topics-Freed n topics m1 c.topics (Topics-Same m m1 topics c.topics still ts)
        (Distinct-append_right strings nodes d) fuel' in
    let there : m1 c.subscriber ≡ m c.subscriber =
      let out = listed-append c.subscriber strings nodes in ground (arith, freed1 c.subscriber) in
    (
      m2,
      rw (e, free_client) (rw (f1, free_client) (rw (there, free_client) (rw (e, free_client) f2))),
      Freed-append strings nodes m m1 m2 freed1 freed2,
    )
