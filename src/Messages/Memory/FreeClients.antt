-- ===== src/Messages/Memory/FreeClients.antt =====
-- `free_clients` of helpers.cpp: what it frees.
use communication_protocols.Base.{
  ℕ, zero, suc, ◌≡◌, ◌≢◌, refl, ◌∙◌, ◌<◌, false, some, List, [], ◌∷◌, ◌++◌, append_assoc, ◌==◌,
  length, All, arith,
}
use mathlib.Core.Path.{subst}
use communication_protocols.Messages.Memory.{
  client_node, Memory, as_client_node, free_block, free_client, free_clients,
}
use communication_protocols.Messages.Memory.Changes.{
  Freed, free_block-Freed, listed-append, Freed-append, Distinct-append_left, Distinct-append_right,
  Distinct-apart, Same, Same-head, Same-tail, Freed-Same,
}
use communication_protocols.Messages.Memory.Lists.{
  topic_addresses, string_addresses, Topics-Same, Strings-Same, ClientNode, ClientAt, Clients,
  owned_by, owned, subscribers,
}
use communication_protocols.Messages.Memory.Free.{
  Apart, Apart-Same, Same-left, Same-right, free_client-Freed,
}
use communication_protocols.Messages.Server.Clients.{listed, Distinct}

ClientAt-Same :
    (m m' : Memory) (c : ClientNode)
    → Same (owned_by c) m m'
    → m' c.subscriber ≡ m c.subscriber
    → ClientAt m c
    → ClientAt m' c
ClientAt-Same m m' c s there (topics, pending, e, ts, ps) =
    let strings = string_addresses c.pending_messages in
    let nodes = topic_addresses c.topics in
    (
      topics,
      pending,
      there ∙ e,
      Topics-Same m m' topics c.topics (Same-right strings nodes m m' s) ts,
      Strings-Same m m' pending c.pending_messages (Same-left strings nodes m m' s) ps,
    )

Clients-Same :
    (m m' : Memory) (p : ℕ) (clients : List ClientNode)
    → Same (owned clients) m m'
    → Same (subscribers clients) m m'
    → Clients m p clients
    → Clients m' p clients
Clients-Same m m' p [] s there cs = cs
Clients-Same m m' p (c ∷ clients) s there (next, at, nz, e, client, cs) =
    let own = owned_by c in
    let rest = owned clients in
    let behind = Same-right own (c.node ∷ rest) m m' s in
    let others = subscribers clients in
    (
      next,
      at,
      nz,
      Same-head c.node rest m m' behind ∙ e,
      ClientAt-Same m m' c (Same-left own (c.node ∷ rest) m m' s)
          (Same-head c.subscriber others m m' there) client,
      Clients-Same m m' next clients (Same-tail c.node rest m m' behind)
          (Same-tail c.subscriber others m m' there) cs,
    )

clients_step :
    (n k next : ℕ) (c : ClientNode) (m m' m'' : Memory)
    → c.node ≢ 0
    → m c.node ≡ some (client_node c.subscriber next)
    → free_client k c.subscriber m ≡ some m'
    → free_block c.node m' ≡ some m''
    → free_clients (suc n) k c.node m ≡ free_clients n k next m''
unfolding free_clients as_client_node
clients_step n k next c m m' m'' nz e f g =
    let other : (c.node == 0) ≡ false = ground arith in
    rw (other, free_clients)
      (rw (e, free_clients) (rw (f, free_clients) (rw (g, free_clients) refl)))

Apart-head :
    (p : ℕ) (kept own rest : List ℕ) → Apart (p ∷ kept) (own ++ rest) → listed p own ≡ false
unfolding listed
Apart-head p kept own rest apart =
    let out = listed-append p own rest in let here = apart p (ground arith) in ground arith

Apart-tail :
    (p a : ℕ) (kept own rest : List ℕ)
    → Apart (p ∷ kept) (own ++ a ∷ rest)
    → Apart kept (own ++ a ∷ []) × Apart kept rest
unfolding listed
Apart-tail p a kept own rest apart = (
  (λ b h.
      let all = apart b (ground arith) in
      let parts = listed-append b own (a ∷ rest) in
      let parts' = listed-append b own (a ∷ []) in ground arith),
  (λ b h.
      let all = apart b (ground arith) in
      let parts = listed-append b own (a ∷ rest) in ground arith),
)

abbrev pub Fits : ℕ → ClientNode → Type 0
Fits k c = (length c.pending_messages < k) × (length c.topics < k)

loop_frees :
    (n k p : ℕ) (m : Memory) (clients : List ClientNode)
    → Clients m p clients
    → Distinct (owned clients)
    → Apart (subscribers clients) (owned clients)
    → length clients < n
    → All (Fits k) clients
    → (m' : Memory) × (free_clients n k p m ≡ some m') × Freed (owned clients) m m'
unfolding free_clients listed Distinct
loop_frees zero k p m clients cs d apart fuel fits = absurd (omega arith)
loop_frees (suc n) k p m [] at d apart fuel fits = (m, rw (at, free_clients) refl, (λ a. refl))
loop_frees (suc n) k p m (c ∷ clients) (next, at, nz, e, client, cs) d apart fuel
      ((fit, fit'), fits) =
    let own = owned_by c in
    let rest = owned clients in
    let others = subscribers clients in
    let (d0, d') = Distinct-append_right own (c.node ∷ rest) d in
    let (m1, f1, freed1) =
      free_client-Freed k m c client (Distinct-append_left own (c.node ∷ rest) d)
        (Apart-head c.subscriber others own (c.node ∷ rest) apart) fit fit' in
    let still = Freed-Same own (c.node ∷ rest) m m1 d freed1 in
    let (m2, f2, freed2) = free_block-Freed c.node _ m1 nz (Same-head c.node rest m m1 still ∙ e) in
    let still2 = Freed-Same (c.node ∷ []) rest m1 m2 (d0, d') freed2 in
    let freed = Freed-append own (c.node ∷ []) m m1 m2 freed1 freed2 in
    let (away, apart') = Apart-tail c.subscriber c.node others own rest apart in
    let cs' =
      Clients-Same m m2 next clients (λ a h. still2 a h ∙ Same-tail c.node rest m m1 still a h)
        (Apart-Same others (own ++ c.node ∷ []) m m2 away freed) cs in
    let (m3, f3, freed3) = loop_frees n k next m2 clients cs' d' apart' (omega arith) fits in
    (
      m3,
      rw at (clients_step n k next c m m1 m2 nz e f1 f2 ∙ f3),
      subst (λ l. Freed l m m3) (append_assoc own (c.node ∷ []) rest)
          (Freed-append (own ++ c.node ∷ []) rest m m2 m3 freed freed3),
    )

-- A list of clients in memory, and all that they point to, at addresses of which no two are the same:
-- with fuel for the lists, `free_clients` comes to an end without a fault. It has freed each node of
-- the list, each topic and each pending text with its node, and no other block: the blocks of the
-- clients themselves are left.
pub free_clients-Freed :
    (n k p : ℕ) (m : Memory) (clients : List ClientNode)
    → Clients m p clients
    → Distinct (owned clients ++ subscribers clients)
    → length clients < n
    → All (Fits k) clients
    → (m' : Memory) × (free_clients n k p m ≡ some m')
      × Freed (owned clients) m m'
      × Same (subscribers clients) m m'
free_clients-Freed n k p m clients cs d fuel fits =
    let own = owned clients in
    let kept = subscribers clients in
    let apart : Apart kept own = (λ a h. Distinct-apart own kept a d h) in
    let (m', e, freed) =
      loop_frees n k p m clients cs (Distinct-append_left own kept d) apart fuel fits in
    (m', e, freed, Apart-Same kept own m m' apart freed)
