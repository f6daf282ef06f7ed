-- ===== src/Web/Buffer/Part.antt =====
-- The searches of buffer.c in the first part of a text.
use communication_protocols.Base.{
  ℕ, zero, suc, ◌+◌, ◌≤◌, ◌<◌, ◌≡◌, refl, sym, ap, ◌∙◌, lt_or_le, inl, inr, ◌⊎◌, Option, none, some,
  [], ◌∷◌, ◌++◌, Bytes, length, length-append, get_or, arith,
}
use mathlib.Core.Option.{some-injective}
use mathlib.Core.Path.{subst}
use communication_protocols.Web.Buffer.Find.{OccursAt, Found, at_first, nowhere}

get_or-append : (xs ys : Bytes) (i d : ℕ) → i < length xs → get_or (xs ++ ys) i d ≡ get_or xs i d
get_or-append [] ys i d h = absurd (omega arith)
get_or-append (x ∷ xs) ys zero d h = refl
get_or-append (x ∷ xs) ys (suc i) d h = get_or-append xs ys i d (omega arith)

module _ (view : ℕ → ℕ) (part rest bytes : Bytes) where
  part-OccursAt :
      (i : ℕ)
      → i + length bytes ≤ length part
      → OccursAt view (part ++ rest) bytes i
      → OccursAt view part bytes i
  part-OccursAt i fits o = record {
    inside = fits;
    same = (λ j lt.
        ap view (sym (get_or-append part rest (i + j) 0 (omega (arith, fits, lt)))) ∙ o.same j lt);
  }

  whole-OccursAt : (i : ℕ) → OccursAt view part bytes i → OccursAt view (part ++ rest) bytes i
  whole-OccursAt i o = record {
    inside = omega (arith, o.inside, length-append part rest);
    same = (λ j lt.
        ap view (get_or-append part rest (i + j) 0 (omega (arith, o.inside, lt))) ∙ o.same j lt);
  }

  -- What a search that ends at i has found.
  found_first :
      (block : Bytes) (o : Option ℕ) (i : ℕ)
      → Found view block bytes o
      → o ≡ some i
      → OccursAt view block bytes i × ((j : ℕ) → j < i → ¬ OccursAt view block bytes j)
  found_first block _ i (at_first k occurs first) e =
      let same = some-injective k i e in
      (subst (OccursAt view block bytes) same occurs, (λ j lt. first j (omega (arith, same, lt))))
  found_first block _ i (nowhere none_at) e = absurd (ground arith)

  -- In the first part of a text, a search ends where it ends in the text, if the part goes that far.
  pub Found-part :
      (at : ℕ) (o : Option ℕ)
      → Found view (part ++ rest) bytes (some at)
      → Found view part bytes o
      → ((o ≡ some at) × (at + length bytes ≤ length part))
        ⊎ ((o ≡ none) × (length part < at + length bytes))
  Found-part at _ whole (at_first i occurs first) =
      let (there, before) = found_first (part ++ rest) (some at) at whole refl in
      let late : at ≤ i = elim (lt_or_le i at) [
        | inl lt ↦ absurd (before i lt (whole-OccursAt i occurs))
        | inr le ↦ le
      ] in
      let early : i ≤ at = elim (lt_or_le at i) [
        | inl lt ↦
            absurd (first at lt (part-OccursAt at (omega (arith, occurs.inside, late)) there))
        | inr le ↦ le
      ] in
      inl (ap some (omega (arith, late, early)), omega (arith, occurs.inside, late))
  Found-part at _ whole (nowhere none_at) =
      let (there, before) = found_first (part ++ rest) (some at) at whole refl in
      elim (lt_or_le (length part) (at + length bytes)) [
        | inl lt ↦ inr (refl, lt)
        | inr le ↦ absurd (none_at at (part-OccursAt at le there))
      ]
