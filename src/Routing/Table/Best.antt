-- ===== src/Routing/Table/Best.antt =====
-- `get_best_route` of router.c.
use communication_protocols.Base.{
  ℕ, zero, suc, ◌≤◌, ◌<◌, ◌≡◌, ◌==◌, ==_iff, refl, Option, inl, inr, true, false, none, some, arith,
  Bool-cases, Option-cases,
}
use communication_protocols.Routing.Table.{
  Table, Run, ok, fault, better, best_loop, binary_search, get_best_route,
}
use communication_protocols.Routing.Table.Search.{Matches, binary_search-Matches}

-- The destination lies in the network of the entry at j too, whose mask is larger than that of the
-- next entry, with the same prefix.
abbrev pub Better : ℕ → Table → ℕ → Type 0
Better dest t j =
    Matches dest (t j) × ((t (suc j)).mask < (t j).mask) × ((t j).prefix ≡ (t (suc j)).prefix)

better-Better : (dest : ℕ) (t : Table) (j : ℕ) → better dest t j ≡ true → Better dest t j
unfolding better
better-Better dest t j b = (ground arith, ground arith, ground arith)

not_better : (dest : ℕ) (t : Table) (j : ℕ) → better dest t j ≡ false → ¬ Better dest t j
unfolding better
not_better dest t j b (m, larger, same) = ground arith

-- The entry that the walk reports, at `suc j`, for a walk from i.
pub record IsBest (dest : ℕ) (t : Table) (i j : ℕ) : Type 0 where
  pub bound : suc j ≤ i
  pub here : Matches dest (t (suc j))
  pub same : (t (suc j)).prefix ≡ (t i).prefix
  pub longer : (t i).mask ≤ (t (suc j)).mask
  pub stops : ¬ Better dest t j

better-Matches : (dest : ℕ) (t : Table) (j : ℕ) → better dest t j ≡ true → Matches dest (t j)
unfolding better
better-Matches dest t j b = ground arith

IsBest-step :
    (dest : ℕ) (t : Table) (i j : ℕ)
    → better dest t i ≡ true
    → IsBest dest t i j
    → IsBest dest t (suc i) j
unfolding better
IsBest-step dest t i j b best = record {
  bound = omega (arith, best.bound);
  here = best.here;
  same = ground (arith, best.same);
  longer = ground (arith, best.longer);
  stops = best.stops;
}

-- A walk stops behind the front of the table, or every entry on its way is better than the next.
pub data Walk (dest : ℕ) (t : Table) (i : ℕ) : Run (Option ℕ) → Type 0 where
  stopped : (j : ℕ) → IsBest dest t i j → Walk dest t i (ok (some (suc j)))
  left : ((j : ℕ) → j < i → Better dest t j) → Walk dest t i fault

Walk-step :
    (dest : ℕ) (t : Table) (i : ℕ) {r : Run (Option ℕ)}
    → better dest t i ≡ true
    → Walk dest t i r
    → Walk dest t (suc i) r
Walk-step dest t i b (stopped j best) = stopped j (IsBest-step dest t i j b best)
Walk-step dest t i b (left all) = left (λ j h. elim (Bool-cases (j == i)) [
  | inl e ↦ let same : j ≡ i = (==_iff j i).0 e in rw same (better-Better dest t i b)
  | inr e ↦ all j (ground arith)
])

best_loop-Walk :
    (dest : ℕ) (t : Table) (i : ℕ) → Matches dest (t i) → Walk dest t i (best_loop dest t i)
unfolding best_loop
best_loop-Walk dest t zero h = left (λ j lt. absurd (omega arith))
best_loop-Walk dest t (suc j) h = elim (Bool-cases (better dest t j)) [
  | inl b ↦
      rw (b, best_loop) (Walk-step dest t j b (best_loop-Walk dest t j (better-Matches dest t j b)))
  | inr b ↦
      rw (b, best_loop)
        (stopped j (record {
          bound = omega arith;
          here = h;
          same = refl;
          longer = omega arith;
          stops = not_better dest t j b;
        }))
]

-- The lookup ends in one of three ways. No network is found, as the search has it; or the walk from
-- the entry that the search finds stops at an entry of the table, never the first, that the
-- destination lies in, with the same prefix, a mask at least as large, and no better entry just
-- before it; or every entry before the found one is better than the next, and the walk leaves the
-- table at its front.
pub data Outcome (n dest : ℕ) (t : Table) : Run (Option ℕ) → Type 0 where
  missing : binary_search 0 n dest t ≡ none → Outcome n dest t (ok none)
  best :
      (i j : ℕ)
      → binary_search 0 n dest t ≡ some i
      → i < n
      → IsBest dest t i j
      → Outcome n dest t (ok (some (suc j)))
  outside :
      (i : ℕ)
      → binary_search 0 n dest t ≡ some i
      → ((j : ℕ) → j < i → Better dest t j)
      → Outcome n dest t fault

Walk-Outcome :
    (n dest : ℕ) (t : Table) (i : ℕ) {r : Run (Option ℕ)}
    → binary_search 0 n dest t ≡ some i
    → i < n
    → Walk dest t i r
    → Outcome n dest t r
Walk-Outcome n dest t i e h (stopped j b) = best i j e h b
Walk-Outcome n dest t i e h (left all) = outside i e all

-- The lookup in the first n entries, for every table and destination: see `Outcome`.
pub get_best_route-Outcome : (n dest : ℕ) (t : Table) → Outcome n dest t (get_best_route n dest t)
unfolding get_best_route
get_best_route-Outcome n dest t = elim (Option-cases (binary_search 0 n dest t)) [
  | inl e ↦ rw (e, get_best_route) (missing e)
  | inr (i, e) ↦
      let (_, h, m) = binary_search-Matches 0 n dest t i e in
      rw (e, get_best_route) (Walk-Outcome n dest t i e h (best_loop-Walk dest t i m))
]
