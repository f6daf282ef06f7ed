-- ===== src/Routing/Table/Sort.antt =====
-- `quicksort` of router.c: its result is in order, holds the same entries, and the rest of the
-- array stands.
use communication_protocols.Base.{
  ℕ, zero, suc, ◌+◌, ◌-◌, ◌≤◌, ◌<◌, ◌≡◌, refl, ◌∙◌, ◌⊎◌, inl, inr, Bool, true, false, arith, ltb,
  Bool-cases,
}
use communication_protocols.Routing.Table.{Entry, Table, before, sort_loop, quicksort}
use communication_protocols.Routing.Table.Swaps.{
  SwapClosed, AllIn, Same, AllIn-SwapClosed, Same-SwapClosed, count, count-SwapClosed,
}
use communication_protocols.Routing.Table.Partition.{Parted, partition-Parted, partition-closed}

-- No entry of the range goes before one that stands ahead of it.
abbrev Unbeaten : ℕ → ℕ → Table → Type 0
Unbeaten lo hi t = (i j : ℕ) → lo ≤ i → i < j → j < hi → before (t j) (t i) ≡ false

-- Any property that swaps in a range keep, sorting inside that range keeps.
sort_loop-closed {ℓ} :
    (Q : Table → Type ℓ) (lo hi : ℕ)
    → SwapClosed lo hi Q
    → (f start stop : ℕ) (t : Table) → lo ≤ start
    → stop ≤ hi
    → Q t
    → Q (sort_loop f start stop t)
unfolding sort_loop
sort_loop-closed Q lo hi c zero start stop t hl hh q = q
sort_loop-closed Q lo hi c (suc f) start stop t hl hh q = elim (Bool-cases (ltb (start + 1) stop)) [
  | inl b ↦
      let parted = partition-Parted start (stop - 1) t (ground arith) in
      rw (b, sort_loop)
        (sort_loop-closed Q lo hi c f _ stop _ (omega (arith, parted.low)) hh (
          sort_loop-closed Q lo hi c f start _ _ hl (ground (arith, parted.high))
            (partition-closed Q lo hi c start (stop - 1) t (ground arith) hl (ground arith) q)))
  | inr b ↦ rw (b, sort_loop) q
]

sort_loop-Same : (f start stop : ℕ) (t : Table) → Same start stop t (sort_loop f start stop t)
sort_loop-Same f start stop t =
    sort_loop-closed (Same start stop t) start stop (Same-SwapClosed start stop t) f start stop t
      (omega arith) (omega arith) (λ j out. refl)

sort_loop-AllIn {ℓ} :
    (P : Entry → Type ℓ) (f start stop : ℕ) (t : Table)
    → AllIn P start stop t
    → AllIn P start stop (sort_loop f start stop t)
sort_loop-AllIn P f start stop t =
    sort_loop-closed (AllIn P start stop) start stop (AllIn-SwapClosed P start stop) f start stop t
      (omega arith) (omega arith)

before_asymm : (a b : Entry) → before a b ≡ true → before b a ≡ false
unfolding before
before_asymm a b h = ground arith

before_split : (a p c : Entry) → before a p ≡ true → before c p ≡ false → before c a ≡ false
unfolding before
before_split a p c h k = ground arith

-- Two sorted parts with the pivot between them are sorted together.
Unbeaten-join :
    (start stop p : ℕ) (v : Entry) (t : Table)
    → t p ≡ v
    → AllIn (λ e. before e v ≡ true) start p t
    → AllIn (λ e. before e v ≡ false) (p + 1) stop t
    → Unbeaten start p t
    → Unbeaten (p + 1) stop t
    → Unbeaten start stop t
Unbeaten-join start stop p v t e l r sl sr i j h1 h2 h3 =
    grind (arith, before_asymm (t i) v, before_split (t i) v (t j), l i, r j, sl i j, sr i j)

Unbeaten-Same :
    (lo hi lo' hi' : ℕ) (t u : Table)
    → Same lo' hi' t u
    → (hi ≤ lo') ⊎ (hi' ≤ lo)
    → Unbeaten lo hi t
    → Unbeaten lo hi u
Unbeaten-Same lo hi lo' hi' t u same apart s i j h1 h2 h3 =
    ground (arith, same i, same j, s i j h1 h2 h3)

-- Sorting the two sides of a parted range sorts the range.
sort_sides :
    (f start stop p : ℕ) (t : Table)
    → Parted start (stop - 1) p t
    → p < stop
    → Unbeaten start p (sort_loop f start p t)
    → Unbeaten (p + 1) stop (sort_loop f (p + 1) stop (sort_loop f start p t))
    → Unbeaten start stop (sort_loop f (p + 1) stop (sort_loop f start p t))
sort_sides f start stop p t parted hp sl sr =
    Unbeaten-join start stop p (t p) v (same2 p (inl (omega arith)) ∙ same1 p (inr (omega arith)))
      (λ j h1 h2. ground (arith, same2 j, left j h1 h2))
      (sort_loop-AllIn (λ e. before e (t p) ≡ false) f (p + 1) stop u
        (λ j h1 h2. ground (arith, same1 j, parted.right j)))
      (Unbeaten-Same start p (p + 1) stop u v same2 (inl (omega arith)) sl) sr
  where
    u : Table
    u = sort_loop f start p t

    v : Table
    v = sort_loop f (p + 1) stop u

    same1 : Same start p t u
    same1 = sort_loop-Same f start p t

    same2 : Same (p + 1) stop u v
    same2 = sort_loop-Same f (p + 1) stop u

    left : AllIn (λ e. before e (t p) ≡ true) start p u
    left = sort_loop-AllIn (λ e. before e (t p) ≡ true) f start p t parted.left

Unbeaten-short : (start stop : ℕ) (t : Table) → stop ≤ start + 1 → Unbeaten start stop t
Unbeaten-short start stop t h i j h1 h2 h3 = absurd (omega arith)

sort_loop-Unbeaten :
    (f start stop : ℕ) (t : Table)
    → stop ≤ start + f
    → Unbeaten start stop (sort_loop f start stop t)
unfolding sort_loop
sort_loop-Unbeaten zero start stop t h = Unbeaten-short start stop t (omega arith)
sort_loop-Unbeaten (suc f) start stop t h = elim (Bool-cases (ltb (start + 1) stop)) [
  | inl b ↦
      let parted = partition-Parted start (stop - 1) t (ground arith) in
      rw (b, sort_loop)
        (sort_sides f start stop _ _ parted (ground (arith, parted.high))
          (sort_loop-Unbeaten f start _ _ (ground (arith, parted.high)))
          (sort_loop-Unbeaten f _ stop _ (omega (arith, parted.low))))
  | inr b ↦ rw (b, sort_loop) (Unbeaten-short start stop t (ground arith))
]

-- Along the range the prefixes rise, and the masks of one prefix fall.
abbrev pub Sorted : ℕ → ℕ → Table → Type 0
Sorted lo hi t =
    (i j : ℕ)
    → lo ≤ i
    → i < j
    → j < hi
    → ((t i).prefix < (t j).prefix) ⊎ (((t i).prefix ≡ (t j).prefix) × ((t j).mask ≤ (t i).mask))

not_before :
    (a b : Entry)
    → before b a ≡ false
    → (a.prefix < b.prefix) ⊎ ((a.prefix ≡ b.prefix) × (b.mask ≤ a.mask))
unfolding before
not_before a b h = elim (Bool-cases (ltb a.prefix b.prefix)) [
  | inl less ↦ inl (ground arith)
  | inr not_less ↦ inr (ground arith, ground arith)
]

-- Sorting the range [start, stop) puts it in order: for i < j in the range, the entry at i has a
-- smaller prefix than the one at j, or the same prefix and a mask at least as large.
pub quicksort-Sorted : (start stop : ℕ) (t : Table) → Sorted start stop (quicksort start stop t)
unfolding quicksort
quicksort-Sorted start stop t i j h1 h2 h3 =
    not_before _ _ (sort_loop-Unbeaten (stop - start) start stop t (omega arith) i j h1 h2 h3)

-- Sorting the range [start, stop) of a table of n entries keeps, for every Boolean property, how
-- many of the n entries have it, and leaves the entries outside the range where they are.
pub quicksort-count :
    (q : Entry → Bool) (n start stop : ℕ) (t : Table)
    → stop ≤ n
    → (count q n (quicksort start stop t) ≡ count q n t)
      × ((j : ℕ) → (j < start) ⊎ (stop ≤ j) → quicksort start stop t j ≡ t j)
unfolding quicksort
quicksort-count q n start stop t h = (
  sort_loop-closed (λ u. count q n u ≡ count q n t) start stop (count-SwapClosed q n start stop t h)
      (stop - start) start stop t (omega arith) (omega arith) refl,
  sort_loop-Same (stop - start) start stop t,
)

-- Every property that all entries of the range have, they have after the sort.
pub quicksort-AllIn {ℓ} :
    (P : Entry → Type ℓ) (start stop : ℕ) (t : Table)
    → AllIn P start stop t
    → AllIn P start stop (quicksort start stop t)
unfolding quicksort
quicksort-AllIn P start stop = sort_loop-AllIn P (stop - start) start stop
