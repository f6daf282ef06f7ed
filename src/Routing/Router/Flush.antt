-- ===== src/Routing/Router/Flush.antt =====
-- What the loops over the queue do with it, and statements about a run that does not fault.
use communication_protocols.Base.{
  ◌⊎◌, inl, inr, ◌≡◌, refl, sym, ◌∙◌, List, [], ◌∷◌, ◌++◌, append_assoc, append-nil,
}
use mathlib.Core.Path.{subst}
use communication_protocols.Routing.Table.{Run, ok, fault, get_best_route}
use communication_protocols.Routing.Packet.{Packet, get32, daddr}
use communication_protocols.Routing.Router.{
  Router, Ref, current, Sent, ◌>>=◌, flush_entries, flush_loop, refill_loop,
}

-- The value, if there is one, has the property.
abbrev pub Post : {A : Type 0} → (A → Type 0) → Run A → Type 0
Post P (ok a) = P a
Post P fault = Unit

Post-bind :
    {A B : Type 0} (Q : B → Type 0) (m : Run A) (f : A → Run B)
    → ((a : A) → m ≡ ok a → Post Q (f a))
    → Post Q (m >>= f)
Post-bind Q (ok a) f h = h a refl
Post-bind Q fault f h = tt

pub Post-ok : {A : Type 0} (P : A → Type 0) (m : Run A) (a : A) → m ≡ ok a → Post P m → P a
Post-ok P m a e h = subst (Post P) e h

pub Run-cases : {A : Type 0} (m : Run A) → (m ≡ fault) ⊎ ((a : A) × (m ≡ ok a))
Run-cases (ok a) = inr (a, refl)
Run-cases fault = inl refl

pub refill_loop-append : (q_aux q : List Ref) → refill_loop q_aux q ≡ q ++ q_aux
unfolding refill_loop
refill_loop-append [] q = sym (append-nil q)
refill_loop-append (p ∷ q_aux) q =
    refill_loop-append q_aux (q ++ p ∷ []) ∙ append_assoc q (p ∷ []) q_aux

-- Every packet that is taken from the queue is put behind the others in `q_aux`.
pub flush_loop-append :
    (r : Router) (q q_aux : List Ref) (p : Packet)
    → Post (λ res. res.0 ≡ q_aux ++ q) (flush_loop r q q_aux p)
unfolding flush_loop
flush_loop-append r [] q_aux p = sym (append-nil q_aux)
flush_loop-append r (current ∷ q) q_aux p =
    Post-bind Q (get_best_route r.rtable_size (get32 p.payload daddr) r.rtable) _ λ index _.
      Post-bind Q (flush_entries r index r.arp_table p) _ λ flushed _.
        Post-bind Q (flush_loop r q (q_aux ++ current ∷ []) flushed.0) _ λ rest e.
          Post-ok (λ res. res.0 ≡ (q_aux ++ current ∷ []) ++ q) _ rest e
            (flush_loop-append r q (q_aux ++ current ∷ []) flushed.0)
          ∙ append_assoc q_aux (current ∷ []) q
  where
    Q : List Ref × Packet × List Sent → Type 0
    Q res = res.0 ≡ q_aux ++ current ∷ q
