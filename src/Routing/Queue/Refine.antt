-- ===== src/Routing/Queue/Refine.antt =====
-- A sequence of calls of queue.h on the heap and on a list.
use communication_protocols.Base.{
  ◌>>=◌, ℕ, Bool, ◌≡◌, ◌≢◌, refl, List, [], ◌∷◌, ◌++◌, some, none, Option,
}
use communication_protocols.Routing.Queue.{Heap, Queue, queue_empty, queue_enq, queue_deq}
use communication_protocols.Routing.Queue.Fifo.{
  IsQueue, is_nil, queue_enq-IsQueue, queue_deq-IsQueue, queue_empty-IsQueue, queue_deq-none,
}

-- A call of the queue's interface; `enq` comes with the address that its `malloc` returns.
pub data Call (A : Type 0) : Type 0 where
  enq : ℕ → A → Call A
  deq : Call A
  ask : Call A

pub data Reply (A : Type 0) : Type 0 where
  done : Reply A
  got : A → Reply A
  emptiness : Bool → Reply A

module _ {A : Type 0} where
  -- The calls on a list, the oldest element first; `none` is a failed `assert`.
  pub spec : List (Call A) → List A → Option (List (Reply A))
  spec [] xs = some []
  spec (enq p x ∷ calls) xs = do rs ← spec calls (xs ++ x ∷ []); some (done ∷ rs)
  spec (ask ∷ calls) xs = do rs ← spec calls xs; some (emptiness (is_nil xs) ∷ rs)
  spec (deq ∷ calls) [] = none
  spec (deq ∷ calls) (x ∷ xs) = do rs ← spec calls xs; some (got x ∷ rs)

  -- The calls on the cells.
  unfoldable pub run : List (Call A) → Queue → Heap A → Option (List (Reply A))
  run [] q h = some []
  run (enq p x ∷ calls) q h = do
    (q', h') ← queue_enq p q x h
    rs ← run calls q' h'
    some (done ∷ rs)
  run (ask ∷ calls) q h = do rs ← run calls q h; some (emptiness (queue_empty q) ∷ rs)
  run (deq ∷ calls) q h = do (x, q', h') ← queue_deq q h; rs ← run calls q' h'; some (got x ∷ rs)

  -- Each `malloc` returns a free address other than NULL; an address may come again once freed.
  abbrev pub Allocates : List (Call A) → Queue → Heap A → Type 0
  Allocates [] q h = Unit
  Allocates (enq p x ∷ calls) q h =
      (p ≢ 0)
      × (h p ≡ none)
      × elim (queue_enq p q x h) [ none ↦ Unit | some (q', h') ↦ Allocates calls q' h' ]
  Allocates (ask ∷ calls) q h = Allocates calls q h
  Allocates (deq ∷ calls) q h = elim (queue_deq q h) [
    | none ↦ Unit
    | some (x, q', h') ↦ Allocates calls q' h'
  ]

  -- Any sequence of calls on a queue that holds xs gives the replies of the list, the failed
  -- `assert` of a call on the empty queue included, and never leaves the allocated cells.
  pub run-spec :
      (calls : List (Call A)) (q : Queue) (h : Heap A) (xs : List A)
      → IsQueue h q xs
      → Allocates calls q h
      → run calls q h ≡ spec calls xs
  unfolding run spec
  run-spec [] q h xs v al = refl
  run-spec (enq p x ∷ calls) q h xs v (nz, free, al) =
      let (q', h', e, v') = queue_enq-IsQueue h q xs p x nz free v in
      rw (e, run) (rw (run-spec calls q' h' (xs ++ x ∷ []) v' (rw e at al)))
  run-spec (ask ∷ calls) q h xs v al = rw (run-spec calls q h xs v al, queue_empty-IsQueue h q xs v)
  run-spec (deq ∷ calls) q h [] v al = rw (queue_deq-none h q v, run)
  run-spec (deq ∷ calls) q h (x ∷ xs) v al =
      let (q', h', e, v') = queue_deq-IsQueue h q x xs v in
      rw (e, run) (rw (run-spec calls q' h' xs v' (rw (e, Allocates) at al)))
