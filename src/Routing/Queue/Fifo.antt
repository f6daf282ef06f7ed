-- ===== src/Routing/Queue/Fifo.antt =====
-- The queue of queue.c refines a list: elements leave in the order in which they came.
use communication_protocols.Base.{
  ℕ, Bool, true, false, ◌≡◌, ◌≢◌, refl, sym, append_assoc, ◌∙◌, ==_iff, List, [], ◌∷◌, ◌++◌, map,
  some, none, arith, ap, ◌==◌,
}
use communication_protocols.Routing.Queue.{
  cell, Heap, Queue, store, cons, cdr_and_free, queue_empty, queue_enq, queue_deq,
}
use communication_protocols.Routing.Queue.Seg.{
  Seg, store_self, store_ne, Seg-store, Seg-Avoids, Seg-end_Avoids, Seg-snoc,
}

module _ {A : Type 0} where
  abbrev elements : List (ℕ × A) → List A
  elements = map (λ c. c.1)

  elements-snoc :
      (cs : List (ℕ × A)) (x : ℕ) (e : A) → elements (cs ++ (x, e) ∷ []) ≡ elements cs ++ e ∷ []
  elements-snoc [] x e = refl
  elements-snoc (c ∷ cs) x e = ap (◌∷◌ c.1) (elements-snoc cs x e)

  nil-ne-snoc : (xs : List A) (x : A) → [] ≢ xs ++ x ∷ []
  nil-ne-snoc [] x e = cc
  nil-ne-snoc (y ∷ xs) x e = cc

  -- The queue holds these elements, the oldest first.
  pub data IsQueue (h : Heap A) (q : Queue) : List A → Type 0 where
    empty : q.head ≡ 0 → IsQueue h q []
    cells :
        (cs : List (ℕ × A)) (e : A) {xs : List A}
        → Seg h q.head q.tail cs
        → q.tail ≢ 0
        → h q.tail ≡ some (cell e 0)
        → xs ≡ elements cs ++ e ∷ []
        → IsQueue h q xs

  head_pos : (h : Heap A) (p q : ℕ) (cs : List (ℕ × A)) → Seg h p q cs → q ≢ 0 → (p == 0) ≡ false
  head_pos h p q [] s nz = ground arith
  head_pos h p q ((a, e) ∷ cs) (n, e1, e2, e3, e4, av, s) nz = ground arith

  module _ (h : Heap A) (q : Queue) (fresh : ℕ) (x e : A) (free : h fresh ≡ none)
      (at : h q.tail ≡ some (cell e 0)) where
    linked : Heap A
    linked = store q.tail (some (cell e fresh)) (store fresh (some (cell x 0)) h)

    tail-ne-fresh : q.tail ≢ fresh
    tail-ne-fresh same = ground (arith, ap h same)

    before_link : store fresh (some (cell x 0)) h q.tail ≡ some (cell e 0)
    before_link = store_ne fresh q.tail _ h tail-ne-fresh ∙ at

    enq_linked :
        (q.head == 0) ≡ false → queue_enq fresh q x h ≡ some (record q { tail = fresh }, linked)
    unfolding queue_enq cons linked
    enq_linked test =
        rw (test, queue_enq) (rw before_link (rw (store_self q.tail (some (cell e fresh)))))

    linked-IsQueue :
        (cs : List (ℕ × A))
        → fresh ≢ 0
        → q.tail ≢ 0
        → Seg h q.head q.tail cs
        → IsQueue linked (record q { tail = fresh }) (elements cs ++ e ∷ x ∷ [])
    unfolding linked
    linked-IsQueue cs nz tz s =
        cells (cs ++ (q.tail, e) ∷ []) x
          (Seg-snoc linked q.head q.tail fresh e cs tz tail-ne-fresh (store_self q.tail _ _)
            (Seg-Avoids h q.head q.tail fresh cs free s)
            (Seg-store (store fresh (some (cell x 0)) h) q.head q.tail q.tail _ cs
              (Seg-end_Avoids h q.head q.tail cs s)
              (Seg-store h q.head q.tail fresh _ cs (Seg-Avoids h q.head q.tail fresh cs free s)
                s)))
          nz (store_ne q.tail fresh _ _ (λ same. tail-ne-fresh (sym same)) ∙ store_self fresh _ h)
          (rw elements-snoc (sym (append_assoc (elements cs) (e ∷ []) (x ∷ []))))

  -- Adding puts the element last, wherever `malloc` puts the cell.
  pub queue_enq-IsQueue :
      (h : Heap A) (q : Queue) (xs : List A) (fresh : ℕ) (x : A)
      → fresh ≢ 0
      → h fresh ≡ none
      → IsQueue h q xs
      → (q' : Queue) × (h' : Heap A) × (queue_enq fresh q x h ≡ some (q', h'))
        × IsQueue h' q' (xs ++ x ∷ [])
  unfolding queue_enq cons
  queue_enq-IsQueue h q xs fresh x nz free (empty e) = (
    record { head = fresh; tail = fresh },
    store fresh (some (cell x 0)) h,
    rw ((==_iff q.head 0).1 e, queue_enq),
    cells [] x refl nz (store_self fresh _ h) refl,
  )
  queue_enq-IsQueue h q xs fresh x nz free (cells cs e s tz at eq) = (
    record q { tail = fresh },
    linked h q fresh x e free at,
    enq_linked h q fresh x e free at (head_pos h q.head q.tail cs s tz),
    rw (eq, append_assoc) (linked-IsQueue h q fresh x e free at cs nz tz s),
  )

  deq_head :
      (h : Heap A) (q : Queue) (v : A) (n : ℕ)
      → (q.head == 0) ≡ false
      → h q.head ≡ some (cell v n)
      → queue_deq q h ≡ some (v, record q { head = n }, store q.head none h)
  unfolding queue_deq cdr_and_free
  deq_head h q v n test at = rw (test, queue_deq) (rw at)

  abbrev pub Dequeued : Heap A → Queue → A → List A → Type 0
  Dequeued h q x xs =
      (q' : Queue) × (h' : Heap A) × (queue_deq q h ≡ some (x, q', h')) × IsQueue h' q' xs

  deq_cells :
      (h : Heap A) (q : Queue) (cs : List (ℕ × A)) (e : A)
      → Seg h q.head q.tail cs
      → q.tail ≢ 0
      → h q.tail ≡ some (cell e 0)
      → (x : A) (xs : List A) → x ∷ xs ≡ elements cs ++ e ∷ []
      → Dequeued h q x xs
  deq_cells h q [] e s tz at x xs eq =
      let same : x ≡ e = cc in
      let rest : xs ≡ [] = cc in
      rw (same, rest)
        (
          record q { head = 0 },
          store q.head none h,
          deq_head h q e 0 (head_pos h q.head q.tail [] s tz) (rw s at),
          empty refl,
        )
  deq_cells h q ((a, v) ∷ cs) e (n, e1, e2, e3, e4, av, s) tz at x xs eq =
      let same : x ≡ v = cc in
      let rest : xs ≡ elements cs ++ e ∷ [] = cc in
      rw (same, rest)
        (
          record q { head = n },
          store q.head none h,
          deq_head h q v n (ground arith) (rw e1 e4),
          cells cs e (rw e1 (Seg-store h n q.tail a none cs av s)) tz
              (store_ne q.head q.tail none h (ground arith) ∙ at) refl,
        )

  -- Taking gives the oldest element and leaves the others.
  pub queue_deq-IsQueue :
      (h : Heap A) (q : Queue) (x : A) (xs : List A) → IsQueue h q (x ∷ xs) → Dequeued h q x xs
  queue_deq-IsQueue h q x xs (cells cs e s tz at eq) = deq_cells h q cs e s tz at x xs eq

  unfoldable pub is_nil : List A → Bool
  is_nil [] = true
  is_nil (x ∷ xs) = false

  is_nil-snoc : (xs : List A) (x : A) → is_nil (xs ++ x ∷ []) ≡ false
  unfolding is_nil
  is_nil-snoc [] x = refl
  is_nil-snoc (y ∷ xs) x = refl

  pub queue_empty-IsQueue :
      (h : Heap A) (q : Queue) (xs : List A) → IsQueue h q xs → queue_empty q ≡ is_nil xs
  unfolding queue_empty is_nil
  queue_empty-IsQueue h q xs (empty e) = (==_iff q.head 0).1 e
  queue_empty-IsQueue h q xs (cells cs e s tz at eq) =
      rw (eq, is_nil-snoc) (head_pos h q.head q.tail cs s tz)

  pub queue_deq-none : (h : Heap A) (q : Queue) → IsQueue h q [] → queue_deq q h ≡ none
  unfolding queue_deq
  queue_deq-none h q (empty e) = rw ((==_iff q.head 0).1 e, queue_deq)
  queue_deq-none h q (cells cs e s tz at eq) = absurd (ground (arith, nil-ne-snoc (elements cs) e))
