-- ===== src/Routing/Table/Swaps.antt =====
-- Properties of a table that swaps inside a range keep: `swap` of router.c seen from outside.
use communication_protocols.Base.{
  ℕ, zero, suc, ◌+◌, ◌≤◌, ◌<◌, ◌≡◌, refl, ◌∙◌, ◌⊎◌, Bool, true, false, arith, ◌==◌, if◌then◌else◌,
}
use communication_protocols.Routing.Table.{Entry, Table, write, swap}

-- Each swap of two places of the range [lo, hi) keeps Q.
abbrev pub SwapClosed {ℓ} : ℕ → ℕ → (Table → Type ℓ) → Type ℓ
SwapClosed lo hi Q =
    (x y : ℕ) (t : Table) → lo ≤ x → x < hi → lo ≤ y → y < hi → Q t → Q (swap x y t)

abbrev pub AllIn {ℓ} : (Entry → Type ℓ) → ℕ → ℕ → Table → Type ℓ
AllIn P lo hi t = (j : ℕ) → lo ≤ j → j < hi → P (t j)

abbrev pub Same : ℕ → ℕ → Table → Table → Type 0
Same lo hi t u = (j : ℕ) → (j < lo) ⊎ (hi ≤ j) → u j ≡ t j

pub swap_lem :
    (x y j : ℕ) (t : Table) → swap x y t j ≡ (if j == y then t x else if j == x then t y else t j)
unfolding swap
swap_lem x y j t = refl

pub AllIn-SwapClosed {ℓ} : (P : Entry → Type ℓ) (lo hi : ℕ) → SwapClosed lo hi (AllIn P lo hi)
unfolding swap
AllIn-SwapClosed P lo hi x y t hx hx' hy hy' all j h h' =
    ground (arith, all x hx hx', all y hy hy', all j h h')

pub Same-SwapClosed : (lo hi : ℕ) (t : Table) → SwapClosed lo hi (Same lo hi t)
unfolding swap
Same-SwapClosed lo hi t x y u hx hx' hy hy' same j out = ground (arith, same j out)

abbrev pub bit : Bool → ℕ
bit true = 1
bit false = 0

-- How many of the first n entries pass the test.
unfoldable pub count : (Entry → Bool) → ℕ → Table → ℕ
count q zero t = 0
count q (suc n) t = bit (q (t n)) + count q n t

-- A write outside the first n entries is not seen there.
count-write_above :
    (q : Entry → Bool) (n i : ℕ) (e : Entry) (t : Table)
    → n ≤ i
    → count q n (write t i e) ≡ count q n t
unfolding count
count-write_above q zero i e t h = refl
count-write_above q (suc n) i e t h = ground (arith, count-write_above q n i e t (omega arith))

count-write :
    (q : Entry → Bool) (n i : ℕ) (e : Entry) (t : Table)
    → i < n
    → count q n (write t i e) + bit (q (t i)) ≡ count q n t + bit (q e)
unfolding count
count-write q zero i e t h = absurd (omega arith)
count-write q (suc n) i e t h = ground (arith, count-write q n i e t, count-write_above q n i e t)

pub count-swap :
    (q : Entry → Bool) (n x y : ℕ) (t : Table)
    → x < n
    → y < n
    → count q n (swap x y t) ≡ count q n t
unfolding swap
count-swap q n x y t hx hy =
    ground (arith, count-write q n x (t y) t, count-write q n y (t x) (write t x (t y)))

-- The number of entries with any given property is the same as in t.
pub count-SwapClosed :
    (q : Entry → Bool) (n lo hi : ℕ) (t : Table)
    → hi ≤ n
    → SwapClosed lo hi (λ u. count q n u ≡ count q n t)
count-SwapClosed q n lo hi t h x y u hx hx' hy hy' e =
    count-swap q n x y u (omega arith) (omega arith) ∙ e

pub count_none :
    (q : Entry → Bool) (n : ℕ) (t : Table) → AllIn (λ e. q e ≡ false) 0 n t → count q n t ≡ 0
unfolding count
count_none q zero t all = refl
count_none q (suc n) t all =
    ground (arith, all n, count_none q n t (λ j h1 h2. all j h1 (omega arith)))
