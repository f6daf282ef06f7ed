-- ===== src/Routing/Queue/Seg.antt =====
-- Linked cells from one address to another.
use communication_protocols.Base.{
  ℕ, ◌≡◌, ◌≢◌, refl, List, [], ◌∷◌, ◌++◌, some, none, Option, arith, All, All-append, ap, sym,
}
use communication_protocols.Routing.Queue.{Cell, cell, Heap, store}

module _ {A : Type 0} where
  abbrev pub Avoids : ℕ → List (ℕ × A) → Type 0
  Avoids x = All (λ c. c.0 ≢ x)

  -- The cells stand one behind the other from p on, and the last links to q. No address comes twice,
  -- and q is none of them.
  abbrev pub Seg : Heap A → ℕ → ℕ → List (ℕ × A) → Type 0
  Seg h p q [] = p ≡ q
  Seg h p q ((a, e) ∷ cs) =
      (n : ℕ) × (p ≡ a) × (a ≢ 0) × (a ≢ q) × (h a ≡ some (cell e n)) × Avoids a cs × Seg h n q cs

  pub store_self : (p : ℕ) (c : Option (Cell A)) (h : Heap A) → store p c h p ≡ c
  unfolding store
  store_self p c h = ground arith

  pub store_ne : (p a : ℕ) (c : Option (Cell A)) (h : Heap A) → a ≢ p → store p c h a ≡ h a
  unfolding store
  store_ne p a c h ne = ground arith

  pub Seg-store :
      (h : Heap A) (p q x : ℕ) (c : Option (Cell A)) (cs : List (ℕ × A))
      → Avoids x cs
      → Seg h p q cs
      → Seg (store x c h) p q cs
  unfolding store
  Seg-store h p q x c [] av s = s
  Seg-store h p q x c ((a, e) ∷ cs) (ne, av) (n, e1, e2, e3, e4, av', s) =
      (n, e1, e2, e3, ground arith, av', Seg-store h n q x c cs av s)

  -- An address that holds no cell is none of the segment's.
  pub Seg-Avoids :
      (h : Heap A) (p q x : ℕ) (cs : List (ℕ × A)) → h x ≡ none → Seg h p q cs → Avoids x cs
  Seg-Avoids h p q x [] e s = tt
  Seg-Avoids h p q x ((a, v) ∷ cs) e (n, e1, e2, e3, e4, av, s) =
      (λ same. ground (arith, ap h same), Seg-Avoids h n q x cs e s)

  pub Seg-end_Avoids : (h : Heap A) (p q : ℕ) (cs : List (ℕ × A)) → Seg h p q cs → Avoids q cs
  Seg-end_Avoids h p q [] s = tt
  Seg-end_Avoids h p q ((a, v) ∷ cs) (n, e1, e2, e3, e4, av, s) = (e3, Seg-end_Avoids h n q cs s)

  pub Seg-snoc :
      (h : Heap A) (p q r : ℕ) (e : A) (cs : List (ℕ × A))
      → q ≢ 0
      → q ≢ r
      → h q ≡ some (cell e r)
      → Avoids r cs
      → Seg h p q cs
      → Seg h p r (cs ++ (q, e) ∷ [])
  Seg-snoc h p q r e [] nz ne at av s = (r, s, nz, ne, at, tt, refl)
  Seg-snoc h p q r e ((a, v) ∷ cs) nz ne at (nr, av) (n, e1, e2, e3, e4, av', s) =
      (n, e1, e2, nr, e4, Avoids-snoc, Seg-snoc h n q r e cs nz ne at av s)
    where
      Avoids-snoc : Avoids a (cs ++ (q, e) ∷ [])
      Avoids-snoc = All-append (λ c. c.0 ≢ a) cs _ av' (λ same. e3 (sym same), tt)
