-- ===== src/Messages/Memory/Members.antt =====
-- `add_client_to_list` and `delete_client_from_list` of helpers.cpp, which nothing in the program calls,
-- on a list of clients in memory.
use communication_protocols.Base.{
  ◌>>=◌, ℕ, zero, suc, ◌≡◌, ◌≢◌, refl, ap, ◌∙◌, inl, inr, true, false, Bool-cases, Option, none,
  some, List, [], ◌∷◌, ◌==◌, if◌then◌else◌, map, Bytes, same_bytes, arith,
}
use communication_protocols.Messages.Memory.{
  Block, client_block, client_node, Memory, write_block, free_block, as_client_node,
}
use communication_protocols.Messages.Memory.Changes.{Elsewhere, write_block_self, write_block-other}
use communication_protocols.Messages.Server.Clients.{listed}

unfoldable pub as_id : Block → Option Bytes
as_id (client_block id online topics pending_messages) = some id
as_id _ = none

-- `subscriber->id`
unfoldable pub id_at : ℕ → Memory → Option Bytes
id_at p m = do block ← m p; as_id block

unfoldable pub add_client_to_list : ℕ → ℕ → ℕ → Memory → ℕ × Memory
add_client_to_list fresh list subscriber m =
    (fresh, write_block fresh (some (client_node subscriber list)) m)

-- The loop of `delete_client_from_list`.
unfoldable pub delete_loop : ℕ → ℕ → ℕ → ℕ → ℕ → Memory → Option (ℕ × Memory)
delete_loop zero list subscriber prev_aux aux m = none
delete_loop (suc n) list subscriber prev_aux aux m = elim (aux == 0) [
  | true ↦ some (list, m)
  | false ↦ do
    block ← m aux
    (c, next) ← as_client_node block
    id ← id_at c m
    id' ← id_at subscriber m
    elim (same_bytes id id') [
      | false ↦ delete_loop n list subscriber aux next m
      | true ↦ elim (aux == list) [
        | true ↦ do m ← free_block list m; some (next, m)
        | false ↦ do
          before ← m prev_aux
          (u, _) ← as_client_node before
          m ← free_block aux (write_block prev_aux (some (client_node u next)) m)
          some (list, m)
      ]
    ]
]

unfoldable pub delete_client_from_list : ℕ → ℕ → ℕ → Memory → Option (ℕ × Memory)
delete_client_from_list n list subscriber m = delete_loop n list subscriber list list m

-- The nodes of the list: their addresses, the clients' and the clients' ids.
abbrev pub MemberNodes : Type 0
MemberNodes = List (ℕ × ℕ × Bytes)

abbrev pub member_addresses : MemberNodes → List ℕ
member_addresses = map (λ c. c.0)

abbrev pub Members : Memory → ℕ → MemberNodes → Type 0
Members m p [] = p ≡ 0
Members m p ((a, c, id) ∷ nodes) =
    (next : ℕ) × (p ≡ a)
    × (a ≢ 0)
    × (m a ≡ some (client_node c next))
    × (id_at c m ≡ some id)
    × Members m next nodes

-- The list without the first client that has the id.
abbrev pub without : Bytes → MemberNodes → MemberNodes
without id [] = []
without id ((a, c, other) ∷ nodes) =
    if same_bytes other id then nodes else (a, c, other) ∷ without id nodes

-- A change of one block that holds a node keeps a list of which it is none.
id_at-Elsewhere :
    (m m' : Memory) (x c u next : ℕ) (id : Bytes)
    → m x ≡ some (client_node u next)
    → Elsewhere (x ∷ []) m m'
    → id_at c m ≡ some id
    → id_at c m' ≡ some id
unfolding id_at as_id listed
id_at-Elsewhere m m' x c u next id e keep f = elim (Bool-cases (x == c)) [
  | inl same ↦ let s : x ≡ c = ground arith in absurd (ground (arith, ap m s))
  | inr other ↦ rw (keep c (ground arith)) f
]

pub Members-Elsewhere :
    (m m' : Memory) (x u y p : ℕ) (nodes : MemberNodes)
    → m x ≡ some (client_node u y)
    → Elsewhere (x ∷ []) m m'
    → listed x (member_addresses nodes) ≡ false
    → Members m p nodes
    → Members m' p nodes
unfolding listed
Members-Elsewhere m m' x u y p [] e keep out at = at
Members-Elsewhere m m' x u y p ((a, c, id) ∷ nodes) e keep out (next, at, nz, f, g, cs) = (
  next,
  at,
  nz,
  keep a (ground arith) ∙ f,
  id_at-Elsewhere m m' x c u y id e keep g,
  Members-Elsewhere m m' x u y next nodes e keep (ground arith) cs,
)

pub id_at-kept :
    (m m' : Memory) (c : ℕ) (id : Bytes) → m' c ≡ m c → id_at c m ≡ some id → id_at c m' ≡ some id
unfolding id_at
id_at-kept m m' c id e f = rw e f

-- A client is none of the nodes.
pub id_at-listed :
    (m : Memory) (p c : ℕ) (id : Bytes) (nodes : MemberNodes)
    → Members m p nodes
    → id_at c m ≡ some id
    → listed c (member_addresses nodes) ≡ false
unfolding id_at as_id listed
id_at-listed m p c id [] at f = refl
id_at-listed m p c id ((a, d, other) ∷ nodes) (next, at, nz, e, g, cs) f =
    let rest = id_at-listed m next c id nodes cs f in
    elim (Bool-cases (a == c)) [
      | inl same ↦ let s : a ≡ c = ground arith in absurd (ground (arith, ap m s))
      | inr different ↦ ground arith
    ]

-- A write of a block that was not allocated keeps a list, and the add puts its node before the list.
id_at-fresh :
    (m : Memory) (x c : ℕ) (v : Option Block) (id : Bytes)
    → m x ≡ none
    → id_at c m ≡ some id
    → id_at c (write_block x v m) ≡ some id
unfolding id_at as_id
id_at-fresh m x c v id e f = elim (Bool-cases (x == c)) [
  | inl same ↦ let s : x ≡ c = ground arith in absurd (ground (arith, ap m s))
  | inr other ↦ rw (write_block-other x v m c other) f
]

Members-fresh :
    (m : Memory) (x p : ℕ) (v : Option Block) (nodes : MemberNodes)
    → m x ≡ none
    → Members m p nodes
    → Members (write_block x v m) p nodes
Members-fresh m x p v [] e at = at
Members-fresh m x p v ((a, c, id) ∷ nodes) e (next, at, nz, f, g, cs) = elim (Bool-cases (x == a)) [
  | inl same ↦ let s : x ≡ a = ground arith in absurd (ground (arith, ap m s))
  | inr other ↦ (
    next,
    at,
    nz,
    write_block-other x v m a other ∙ f,
    id_at-fresh m x c v id e g,
    Members-fresh m x next v nodes e cs,
  )
]

add_client_to_list-Members :
    (fresh list subscriber : ℕ) (m : Memory) (id : Bytes) (nodes : MemberNodes)
    → fresh ≢ 0
    → m fresh ≡ none
    → id_at subscriber m ≡ some id
    → Members m list nodes
    → let (list', m') = add_client_to_list fresh list subscriber m in
      Members m' list' ((fresh, subscriber, id) ∷ nodes)
unfolding add_client_to_list
add_client_to_list-Members fresh list subscriber m id nodes nz e f cs = (
  list,
  refl,
  nz,
  write_block_self fresh (some (client_node subscriber list)) m,
  id_at-fresh m fresh subscriber (some (client_node subscriber list)) id e f,
  Members-fresh m fresh list (some (client_node subscriber list)) nodes e cs,
)
