-- ===== src/Routing/Queue/Tests.antt =====
-- Six calls on a new queue; the last one fails its `assert`.
use communication_protocols.Base.{ℕ, ◌≡◌, refl, List, [], ◌∷◌, false, none, some, arith}
use communication_protocols.Routing.Queue.{
  Heap, queue_create, queue_empty, queue_enq, queue_deq, cons, cdr_and_free, store,
}
use communication_protocols.Routing.Queue.Fifo.{IsQueue, empty}
use communication_protocols.Routing.Queue.Refine.{
  Call, enq, deq, ask, done, got, emptiness, spec, run, Allocates, run-spec,
}

abbrev no_cells : Heap ℕ
no_cells p = none

abbrev calls : List (Call ℕ)
calls = enq 1 7 ∷ enq 2 8 ∷ deq ∷ enq 1 9 ∷ ask ∷ deq ∷ []

calls_replies :
    run calls queue_create no_cells
    ≡ some (done ∷ done ∷ got 7 ∷ done ∷ emptiness false ∷ got 8 ∷ [])
unfolding run queue_create queue_empty queue_enq queue_deq cons cdr_and_free store
calls_replies = refl

calls_allocate : Allocates calls queue_create no_cells
unfolding queue_create queue_enq queue_deq cons cdr_and_free store
calls_allocate = (omega arith, refl, (omega arith, refl, (omega arith, refl, tt)))

created-IsQueue : IsQueue no_cells queue_create []
unfolding queue_create
created-IsQueue = empty refl

run-spec_example : run calls queue_create no_cells ≡ spec calls []
run-spec_example = run-spec calls queue_create no_cells [] created-IsQueue calls_allocate
