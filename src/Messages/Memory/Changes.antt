-- ===== src/Messages/Memory/Changes.antt =====
-- What the functions of helpers.cpp on lists in memory change, and what they leave.
use communication_protocols.Base.{
  ℕ, ◌≡◌, ◌≢◌, refl, ap, inl, inr, true, false, ◌||◌, Bool-cases, Option, none, some, List, [], ◌∷◌,
  ◌++◌, ◌==◌, if◌then◌else◌, arith,
}
use communication_protocols.Messages.Memory.{Block, Memory, write_block, free_block}
use communication_protocols.Messages.Server.Clients.{listed, Distinct}

pub write_block_self : (p : ℕ) (block : Option Block) (m : Memory) → write_block p block m p ≡ block
unfolding write_block
write_block_self p block m = ground arith

pub write_block-other :
    (p : ℕ) (block : Option Block) (m : Memory) (a : ℕ)
    → (p == a) ≡ false
    → write_block p block m a ≡ m a
unfolding write_block
write_block-other p block m a h = ground arith

-- The blocks at the addresses are gone, and every other block is as it was.
abbrev pub Freed : List ℕ → Memory → Memory → Type 0
Freed freed m m' = (a : ℕ) → m' a ≡ (if listed a freed then none else m a)

pub free_block-Freed :
    (p : ℕ) (block : Block) (m : Memory)
    → p ≢ 0
    → m p ≡ some block
    → (m' : Memory) × (free_block p m ≡ some m') × Freed (p ∷ []) m m'
unfolding free_block write_block listed
free_block-Freed p block m nz e =
    let other : (p == 0) ≡ false = ground arith in
    (write_block p none m, rw (other, free_block) (rw (e, free_block) refl), (λ a. ground arith))

pub listed-append : (a : ℕ) (xs ys : List ℕ) → listed a (xs ++ ys) ≡ (listed a xs || listed a ys)
unfolding listed
listed-append a [] ys = refl
listed-append a (x ∷ xs) ys = ground (arith, listed-append a xs ys)

pub Freed-append :
    (xs ys : List ℕ) (m m' m'' : Memory) → Freed xs m m' → Freed ys m' m'' → Freed (xs ++ ys) m m''
Freed-append xs ys m m' m'' f g a = ground (arith, f a, g a, listed-append a xs ys)

-- The addresses of the two lists are distinct, each list by itself.
pub Distinct-append_left : (xs ys : List ℕ) → Distinct (xs ++ ys) → Distinct xs
unfolding Distinct
Distinct-append_left [] ys d = tt
Distinct-append_left (x ∷ xs) ys (n, d) =
    (ground (arith, listed-append x xs ys), Distinct-append_left xs ys d)

pub Distinct-append_right : (xs ys : List ℕ) → Distinct (xs ++ ys) → Distinct ys
unfolding Distinct
Distinct-append_right [] ys d = d
Distinct-append_right (x ∷ xs) ys (n, d) = Distinct-append_right xs ys d

-- An address of the one list is none of the other.
pub Distinct-apart :
    (xs ys : List ℕ) (a : ℕ) → Distinct (xs ++ ys) → listed a ys ≡ true → listed a xs ≡ false
unfolding Distinct listed
Distinct-apart [] ys a d h = refl
Distinct-apart (x ∷ xs) ys a (n, d) h =
    let rest = Distinct-apart xs ys a d h in
    let both = listed-append a xs ys in ground (arith, ap (λ b. listed b (xs ++ ys)))

-- Two memories with the same blocks at the addresses.
abbrev pub Same : List ℕ → Memory → Memory → Type 0
Same addresses m m' = (a : ℕ) → listed a addresses ≡ true → m' a ≡ m a

pub Same-head : (a : ℕ) (rest : List ℕ) (m m' : Memory) → Same (a ∷ rest) m m' → m' a ≡ m a
unfolding listed
Same-head a rest m m' s = s a (ground arith)

pub Same-tail : (a : ℕ) (rest : List ℕ) (m m' : Memory) → Same (a ∷ rest) m m' → Same rest m m'
unfolding listed
Same-tail a rest m m' s b h = s b (ground arith)

-- What is freed is none of the other list.
pub Freed-Same :
    (freed other : List ℕ) (m m' : Memory)
    → Distinct (freed ++ other)
    → Freed freed m m'
    → Same other m m'
Freed-Same freed other m m' d f a h = rw (f a) (rw (Distinct-apart freed other a d h) refl)

-- Every block at another address is as it was.
abbrev pub Elsewhere : List ℕ → Memory → Memory → Type 0
Elsewhere addresses m m' = (a : ℕ) → listed a addresses ≡ false → m' a ≡ m a

pub write_block-Same :
    (p : ℕ) (block : Option Block) (m : Memory) (addresses : List ℕ)
    → listed p addresses ≡ false
    → Same addresses m (write_block p block m)
write_block-Same p block m addresses out a h = elim (Bool-cases (p == a)) [
  | inl same ↦ absurd (ground (arith, ap (λ x. listed x addresses)))
  | inr other ↦ write_block-other p block m a other
]
