-- ===== src/Routing/Table.antt =====
-- The routing table of Packet-Routing-IP-Eth/router.c: `struct route_table_entry`, the sort and the
-- lookup. The array behind `rtable` is a function from indices to entries. An `int` bound that may
-- be -1 is passed as its successor: `stop` is the source's `end + 1` and `r + 1`.
pub mod Swaps
pub mod Partition
pub mod Sort
pub mod Search
pub mod Best
mod Tests
use communication_protocols.Base.{
  ℕ, zero, suc, ◌+◌, ◌-◌, ◌/◌, Bool, true, false, ◌&&◌, ◌||◌, Option, none, some, ltb, ◌==◌,
  if◌then◌else◌, bit_and,
}

pub record Entry : Type 0 where
  pub prefix : ℕ
  pub next_hop : ℕ
  pub mask : ℕ
  pub interface : ℕ

abbrev pub Table : Type 0
Table = ℕ → Entry

-- `rtable[i] = e`
abbrev pub write : Table → ℕ → Entry → Table
write t i e j = if j == i then e else t j

-- `swap(&rtable[x], &rtable[y])`
unfoldable pub swap : ℕ → ℕ → Table → Table
swap x y t = let aux = t x in write (write t x (t y)) y aux

-- The test that moves an entry before the pivot: a smaller prefix, or the same and a larger mask.
unfoldable pub before : Entry → Entry → Bool
before e pivot = ltb e.prefix pivot.prefix || ((e.prefix == pivot.prefix) && ltb pivot.mask e.mask)

-- The loop of `partition` with `k` rounds left; `pivot` is `&rtable[end]`, read in each round.
unfoldable pub partition_loop : ℕ → ℕ → ℕ → ℕ → Table → ℕ × Table
partition_loop zero i last p t = (p, t)
partition_loop (suc k) i last p t = elim (before (t i) (t last)) [
  | true ↦ partition_loop k (i + 1) last (p + 1) (swap i p t)
  | false ↦ partition_loop k (i + 1) last p t
]

unfoldable pub partition : ℕ → ℕ → Table → ℕ × Table
partition start last t =
    let (p, t') = partition_loop (last - start) start last start t in (p, swap last p t')

unfoldable pub sort_loop : ℕ → ℕ → ℕ → Table → Table
sort_loop zero start stop t = t
sort_loop (suc f) start stop t = elim (ltb (start + 1) stop) [
  | true ↦
      let (p, t') = partition start (stop - 1) t in
      sort_loop f (p + 1) stop (sort_loop f start p t')
  | false ↦ t
]

-- `quicksort(start, stop - 1)`. The fuel is the number of entries in the range.
unfoldable pub quicksort : ℕ → ℕ → Table → Table
quicksort start stop t = sort_loop (stop - start) start stop t

-- `binarySearch(l, stop - 1, dest_ip)`; `none` is the -1.
unfoldable pub search_loop : ℕ → ℕ → ℕ → ℕ → Table → Option ℕ
search_loop zero l stop dest t = none
search_loop (suc f) l stop dest t = elim (ltb l stop) [
  | true ↦
      let mid = l + (stop - 1 - l) / 2 in
      let masked = bit_and dest (t mid).mask in
      elim (masked == (t mid).prefix) [
        | true ↦ some mid
        | false ↦ elim (ltb masked (t mid).prefix) [
          | true ↦ search_loop f l mid dest t
          | false ↦ search_loop f (mid + 1) stop dest t
        ]
      ]
  | false ↦ none
]

unfoldable pub binary_search : ℕ → ℕ → ℕ → Table → Option ℕ
binary_search l stop dest t = search_loop (stop - l) l stop dest t

-- What a routine that indexes an array returns: a value, or a read outside the array.
pub data Run {ℓ} (A : Type ℓ) : Type ℓ where
  ok : A → Run A
  fault : Run A

-- The loop condition at `index = j + 1`: the entry before matches too, with a larger mask and the
-- same prefix.
unfoldable pub better : ℕ → Table → ℕ → Bool
better dest t j =
    ((t j).prefix == bit_and dest (t j).mask)
    && (ltb (t (suc j)).mask (t j).mask)
    && ((t j).prefix == (t (suc j)).prefix)

-- `while (1)`: at index 0 the condition reads `rtable[-1]`.
unfoldable pub best_loop : ℕ → Table → ℕ → Run (Option ℕ)
best_loop dest t zero = fault
best_loop dest t (suc j) = elim (better dest t j) [
  | true ↦ best_loop dest t j
  | false ↦ ok (some (suc j))
]

unfoldable pub get_best_route : ℕ → ℕ → Table → Run (Option ℕ)
get_best_route size dest t = elim (binary_search 0 size dest t) [
  | none ↦ ok none
  | some index ↦ best_loop dest t index
]
