-- ===== src/Routing/Table/Search.antt =====
-- `binarySearch` of router.c: what it finds, and when it finds an entry that is there.
use communication_protocols.Base.{
  ℕ, zero, suc, ◌+◌, ◌-◌, ◌/◌, ◌≤◌, ◌<◌, ◌≡◌, ◌≢◌, ap, inl, inr, Bool, false, none, some, arith,
  ltb, ◌==◌, Bool-cases, bit_and,
}
use communication_protocols.Routing.Table.{Entry, Table, search_loop, binary_search, quicksort}
use communication_protocols.Routing.Table.Swaps.{AllIn, count, count_none}
use communication_protocols.Routing.Table.Sort.{
  Sorted, quicksort-Sorted, quicksort-count, quicksort-AllIn,
}

-- The destination lies in the network of the entry.
abbrev pub Matches : ℕ → Entry → Type 0
Matches dest e = bit_and dest e.mask ≡ e.prefix

search_loop-Matches :
    (f l stop dest : ℕ) (t : Table) (i : ℕ)
    → search_loop f l stop dest t ≡ some i
    → (l ≤ i) × (i < stop) × Matches dest (t i)
unfolding search_loop
search_loop-Matches zero l stop dest t i e = absurd (ground arith)
search_loop-Matches (suc f) l stop dest t i e = ground (
  arith,
  search_loop-Matches f l (l + (stop - 1 - l) / 2) dest t i,
  search_loop-Matches f (l + (stop - 1 - l) / 2 + 1) stop dest t i,
)

-- An index that the search returns lies in the range, and the destination lies in the network of
-- the entry there.
pub binary_search-Matches :
    (l stop dest : ℕ) (t : Table) (i : ℕ)
    → binary_search l stop dest t ≡ some i
    → (l ≤ i) × (i < stop) × Matches dest (t i)
unfolding binary_search
binary_search-Matches l stop = search_loop-Matches (stop - l) l stop

-- Along the range prefixes do not fall, and all masks are m.
pub record IsUniform (m l stop : ℕ) (t : Table) : Type 0 where
  pub rising : (i j : ℕ) → l ≤ i → i ≤ j → j < stop → (t i).prefix ≤ (t j).prefix
  pub masks : (j : ℕ) → l ≤ j → j < stop → (t j).mask ≡ m

IsUniform-sub :
    (m l stop l' stop' : ℕ) (t : Table)
    → l ≤ l'
    → stop' ≤ stop
    → IsUniform m l stop t
    → IsUniform m l' stop' t
IsUniform-sub m l stop l' stop' t hl hs u = record {
  rising = λ i j h1 h2 h3. u.rising i j (omega arith) h2 (omega arith);
  masks = λ j h1 h2. u.masks j (omega arith) (omega arith);
}

search_loop_complete :
    (f l stop dest m : ℕ) (t : Table)
    → stop ≤ l + f
    → IsUniform m l stop t
    → (j : ℕ) → l ≤ j
    → j < stop
    → search_loop f l stop dest t ≡ none
    → bit_and dest m ≢ (t j).prefix
unfolding search_loop
search_loop_complete zero l stop dest m t h u j h1 h2 e = absurd (omega arith)
search_loop_complete (suc f) l stop dest m t h u j h1 h2 e =
    let mid = l + (stop - 1 - l) / 2 in
    ground (
      arith,
      search_loop_complete f l mid dest m t (omega arith)
          (IsUniform-sub m l stop l mid t (omega arith) (omega arith) u) j,
      search_loop_complete f (mid + 1) stop dest m t (omega arith)
          (IsUniform-sub m l stop (mid + 1) stop t (omega arith) (omega arith) u) j,
      u.masks mid,
      u.rising mid j,
      u.rising j mid,
    )

-- A Boolean form of `Matches`, to count by.
unfoldable pub matches : ℕ → Entry → Bool
matches dest e = bit_and dest e.mask == e.prefix

Sorted-rising :
    (n : ℕ) (t : Table)
    → Sorted 0 n t
    → (i j : ℕ) → 0 ≤ i
    → i ≤ j
    → j < n
    → (t i).prefix ≤ (t j).prefix
Sorted-rising n t s i j h0 h1 h2 = elim (Bool-cases (ltb i j)) [
  | inl b ↦ ground (arith, s i j h0 (ground arith) h2)
  | inr b ↦ let e : i ≡ j = ground arith in omega (arith, ap (λ k. (t k).prefix) e)
]

-- Where all n entries have one mask, the search of the sorted table finds an entry whenever the
-- destination lies in the network of an entry of the table as it was read.
pub binary_search-quicksort :
    (n dest m : ℕ) (t : Table)
    → AllIn (λ e. e.mask ≡ m) 0 n t
    → 0 < count (matches dest) n t
    → binary_search 0 n dest (quicksort 0 n t) ≢ none
unfolding binary_search matches
binary_search-quicksort n dest m t masks some_match e =
    let u = quicksort 0 n t in
    let u_masks = quicksort-AllIn (λ e. e.mask ≡ m) 0 n t masks in
    let uniform : IsUniform m 0 n u = record {
      rising = Sorted-rising n u (quicksort-Sorted 0 n t);
      masks = u_masks;
    } in
    let none_left : AllIn (λ e. matches dest e ≡ false) 0 n u = λ j h1 h2. ground (
      arith,
      search_loop_complete (n - 0) 0 n dest m u (omega arith) uniform j h1 h2 e,
      u_masks j h1 h2,
    ) in
    omega (
      arith,
      count_none (matches dest) n u none_left,
      (quicksort-count (matches dest) n 0 n t (omega arith)).0,
    )
