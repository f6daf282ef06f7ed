-- ===== src/Routing/Table/Partition.antt =====
-- `partition` of router.c: where the pivot goes, and what stands on its two sides.
use communication_protocols.Base.{
  ℕ, zero, suc, ◌+◌, ◌-◌, ◌≤◌, ◌<◌, ◌≡◌, inl, inr, true, false, arith, Bool-cases,
}
use mathlib.Core.Path.{subst}
use communication_protocols.Routing.Table.{Entry, Table, swap, before, partition_loop, partition}
use communication_protocols.Routing.Table.Swaps.{SwapClosed}

-- Before round i: the places up to p hold entries before the pivot, those from p to i do not.
pub record Split (start last i p : ℕ) (t : Table) : Type 0 where
  pub low : start ≤ p
  pub high : p ≤ i
  pub left : (j : ℕ) → start ≤ j → j < p → before (t j) (t last) ≡ true
  pub right : (j : ℕ) → p ≤ j → j < i → before (t j) (t last) ≡ false

Split-swap :
    (start last i p : ℕ) (t : Table)
    → i < last
    → before (t i) (t last) ≡ true
    → Split start last i p t
    → Split start last (i + 1) (p + 1) (swap i p t)
unfolding swap
Split-swap start last i p t h b s = record {
  low = omega arith;
  high = omega arith;
  left = λ j h1 h2. ground (arith, s.low, s.high, s.left j);
  right = λ j h1 h2. ground (arith, s.low, s.high, s.right p, s.right j);
}

Split-skip :
    (start last i p : ℕ) (t : Table)
    → before (t i) (t last) ≡ false
    → Split start last i p t
    → Split start last (i + 1) p t
Split-skip start last i p t b s = record {
  low = s.low;
  high = omega arith;
  left = s.left;
  right = λ j h1 h2. ground (arith, s.right j);
}

partition_loop-Split :
    (k start last i p : ℕ) (t : Table)
    → i + k ≡ last
    → Split start last i p t
    → Split start last last (partition_loop k i last p t).0 (partition_loop k i last p t).1
unfolding partition_loop
partition_loop-Split zero start last i p t e s =
    let e' : i ≡ last = omega arith in subst (λ m. Split start last m p t) e' s
partition_loop-Split (suc k) start last i p t e s = elim (Bool-cases (before (t i) (t last))) [
  | inl b ↦
      rw (b, partition_loop)
        (partition_loop-Split k start last (i + 1) (p + 1) (swap i p t) (omega arith)
          (Split-swap start last i p t (omega arith) b s))
  | inr b ↦
      rw (b, partition_loop)
        (partition_loop-Split k start last (i + 1) p t (omega arith)
          (Split-skip start last i p t b s))
]

-- The pivot stands at its place, smaller entries before it and the others behind.
pub record Parted (start last p : ℕ) (t : Table) : Type 0 where
  pub low : start ≤ p
  pub high : p ≤ last
  pub left : (j : ℕ) → start ≤ j → j < p → before (t j) (t p) ≡ true
  pub right : (j : ℕ) → p < j → j ≤ last → before (t j) (t p) ≡ false

Parted-swap :
    (start last p : ℕ) (t : Table)
    → before (t last) (t last) ≡ false
    → Split start last last p t
    → Parted start last p (swap last p t)
unfolding swap
Parted-swap start last p t irr s = record {
  low = s.low;
  high = s.high;
  left = λ j h1 h2. ground (arith, s.high, s.left j);
  right = λ j h1 h2. ground (arith, s.high, s.right p, s.right j);
}

pub before_irrefl : (e : Entry) → before e e ≡ false
unfolding before
before_irrefl e = ground arith

pub partition-Parted :
    (start last : ℕ) (t : Table)
    → start ≤ last
    → Parted start last (partition start last t).0 (partition start last t).1
unfolding partition
partition-Parted start last t h = Parted-swap start last _ _ (before_irrefl _) (
    partition_loop-Split (last - start) start last start start t (omega arith) (record {
      low = omega arith;
      high = omega arith;
      left = λ j h1 h2. absurd (omega arith);
      right = λ j h1 h2. absurd (omega arith);
    }))

-- The swaps of the loop stay between `start` and `last`.
partition_loop-closed {ℓ} :
    (Q : Table → Type ℓ) (lo hi : ℕ)
    → SwapClosed lo hi Q
    → (k i last p : ℕ) (t : Table) → i + k ≡ last
    → lo ≤ p
    → p ≤ i
    → last ≤ hi
    → Q t
    → Q (partition_loop k i last p t).1
unfolding partition_loop
partition_loop-closed Q lo hi c zero i last p t e hp hi' hl q = q
partition_loop-closed Q lo hi c (suc k) i last p t e hp hi' hl q =
    elim (Bool-cases (before (t i) (t last))) [
      | inl b ↦
          rw (b, partition_loop)
            (partition_loop-closed Q lo hi c k (i + 1) last (p + 1) (swap i p t) (omega arith)
              (omega arith) (omega arith) hl
              (c i p t (omega arith) (omega arith) hp (omega arith) q))
      | inr b ↦
          rw (b, partition_loop)
            (partition_loop-closed Q lo hi c k (i + 1) last p t (omega arith) hp (omega arith) hl q)
    ]

pub partition-closed {ℓ} :
    (Q : Table → Type ℓ) (lo hi : ℕ)
    → SwapClosed lo hi Q
    → (start last : ℕ) (t : Table) → start ≤ last
    → lo ≤ start
    → last < hi
    → Q t
    → Q (partition start last t).1
unfolding partition
partition-closed Q lo hi c start last t h hl hh q =
    c last _ _ (omega arith) hh (bounds.0) (bounds.1) (
      partition_loop-closed Q lo hi c (last - start) start last start t (omega arith) hl
        (omega arith) (omega arith) q)
  where
    bounds : (lo ≤ (partition start last t).0) × ((partition start last t).0 < hi)
    bounds =
        let parted = partition-Parted start last t h in
        (omega (arith, parted.low), omega (arith, parted.high))
