-- ===== src/Routing/Queue.antt =====
-- Packet-Routing-IP-Eth/queue.c and list.c: cells on an explicit heap. Address 0 is NULL, and `none`
-- is a fault: an access outside the allocated cells, or a failed `assert`. `fresh` is what `malloc`
-- returns.
pub mod Seg
pub mod Fifo
pub mod Refine
mod Tests
use communication_protocols.Base.{
  ◌>>=◌, ℕ, Bool, true, false, Option, none, some, ◌==◌, if◌then◌else◌,
}

pub record Cell (A : Type 0) : Type 0 where
  pub element : A
  pub next : ℕ

abbrev pub Heap : Type 0 → Type 0
Heap A = ℕ → Option (Cell A)

pub record Queue : Type 0 where
  pub head : ℕ
  pub tail : ℕ

module _ {A : Type 0} where
  unfoldable pub store : ℕ → Option (Cell A) → Heap A → Heap A
  store p c h a = if a == p then c else h a

  abbrev pub cell : A → ℕ → Cell A
  cell e n = record { element = e; next = n }

  -- `list.c`: the new cell stands at `fresh`.
  pub cons : ℕ → A → ℕ → Heap A → ℕ × Heap A
  cons fresh element l h = (fresh, store fresh (some (cell element l)) h)

  pub cdr_and_free : ℕ → Heap A → Option (ℕ × Heap A)
  cdr_and_free l h = do c ← h l; some (c.next, store l none h)

  pub queue_enq : ℕ → Queue → A → Heap A → Option (Queue × Heap A)
  unfolding cons
  queue_enq fresh q element h = elim (q.head == 0) [
    | true ↦ let (p, h') = cons fresh element 0 h in some (record { head = p; tail = p }, h')
    | false ↦ do
      let (p, h') = cons fresh element 0 h
      c ← h' q.tail
      let h'' = store q.tail (some (record c { next = p })) h'
      t ← h'' q.tail
      some (record q { tail = t.next }, h'')
  ]

  pub queue_deq : Queue → Heap A → Option (A × Queue × Heap A)
  unfolding cdr_and_free
  queue_deq q h = elim (q.head == 0) [
    | true ↦ none
    | false ↦ do
      c ← h q.head
      (p, h') ← cdr_and_free q.head h
      some (c.element, record q { head = p }, h')
  ]

pub queue_create : Queue
queue_create = record { head = 0; tail = 0 }

pub queue_empty : Queue → Bool
queue_empty q = q.head == 0
