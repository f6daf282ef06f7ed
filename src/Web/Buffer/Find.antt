-- ===== src/Web/Buffer/Find.antt =====
-- The searches of buffer.c: where the text stands in the buffer, and that it is the first place.
use communication_protocols.Base.{
  ℕ, zero, suc, ◌+◌, ◌%◌, ◌^◌, ◌≤◌, ◌<◌, ◌≡◌, refl, inl, inr, true, false, Option, none, some, [],
  ◌∷◌, Bytes, length, get_or, ltb, ◌==◌, ==_iff, Bool-cases, arith,
}
use communication_protocols.Web.Buffer.{
  Buffer, contents, match_loop, find_loop, find_by, find_index, ℤ, pos, negsuc, to_int, as_result,
  identity, tolower, buffer_find, buffer_find_insensitive,
}
use communication_protocols.Web.Buffer.Add.{IsBuffer}

-- From index i on, the block has the bytes of the text, as seen by `view`.
pub record OccursAt (view : ℕ → ℕ) (block bytes : Bytes) (i : ℕ) : Type 0 where
  pub inside : i + length bytes ≤ length block
  pub same : (j : ℕ) → j < length bytes → view (get_or block (i + j) 0) ≡ view (get_or bytes j 0)

match_loop-same :
    (view : ℕ → ℕ) (block : Bytes) (k : ℕ) (bytes : Bytes)
    → match_loop view block k bytes ≡ true
    → (j : ℕ) → j < length bytes
    → view (get_or block (k + j) 0) ≡ view (get_or bytes j 0)
unfolding match_loop
match_loop-same view block k [] h j lt = absurd (omega arith)
match_loop-same view block k (c ∷ cs) h zero lt =
    let e : k + 0 ≡ k = omega arith in
    rw e (ground (arith, (==_iff (view (get_or block k 0)) (view c)).0))
match_loop-same view block k (c ∷ cs) h (suc j) lt =
    let e : k + suc j ≡ k + 1 + j = omega arith in
    rw e (match_loop-same view block (k + 1) cs (ground arith) j (omega arith))

same-match_loop :
    (view : ℕ → ℕ) (block : Bytes) (k : ℕ) (bytes : Bytes)
    → ((j : ℕ) → j < length bytes → view (get_or block (k + j) 0) ≡ view (get_or bytes j 0))
    → match_loop view block k bytes ≡ true
unfolding match_loop
same-match_loop view block k [] h = refl
same-match_loop view block k (c ∷ cs) h =
    let z : k + 0 ≡ k = omega arith in
    let first : view (get_or block k 0) ≡ view c = rw z at (h 0 (omega arith)) in
    let rest =
      same-match_loop view block (k + 1) cs
        (λ j lt. let e : k + 1 + j ≡ k + suc j = omega arith in rw e (h (suc j) (omega arith))) in
    ground (arith, first, rest)

-- Where a search says that the text is: at the first place where it occurs, or nowhere.
pub data Found (view : ℕ → ℕ) (block bytes : Bytes) : Option ℕ → Type 0 where
  at_first :
      (i : ℕ)
      → OccursAt view block bytes i
      → ((j : ℕ) → j < i → ¬ OccursAt view block bytes j)
      → Found view block bytes (some i)
  nowhere : ((j : ℕ) → ¬ OccursAt view block bytes j) → Found view block bytes none

not_here :
    (view : ℕ → ℕ) (block bytes : Bytes) (i : ℕ)
    → match_loop view block i bytes ≡ false
    → ¬ OccursAt view block bytes i
not_here view block bytes i b o = let t = same-match_loop view block i bytes o.same in cc

find_loop-Found :
    (view : ℕ → ℕ) (left i : ℕ) (block bytes : Bytes)
    → left + i + length bytes ≡ suc (length block)
    → ((j : ℕ) → j < i → ¬ OccursAt view block bytes j)
    → Found view block bytes (find_loop view left i block bytes)
unfolding find_loop
find_loop-Found view zero i block bytes e none_before =
    nowhere (λ j o. none_before j (omega (arith, o.inside)) o)
find_loop-Found view (suc left) i block bytes e none_before =
    elim (Bool-cases (match_loop view block i bytes)) [
      | inl b ↦
          rw (b, find_loop)
            (at_first i
              (record { inside = omega arith; same = match_loop-same view block i bytes b })
              none_before)
      | inr b ↦
          rw (b, find_loop)
            (find_loop-Found view left (i + 1) block bytes (omega arith) (λ j lt.
              elim (Bool-cases (j == i)) [
                | inl e' ↦
                    let same : j ≡ i = (==_iff j i).0 e' in rw same (not_here view block bytes i b)
                | inr e' ↦ none_before j (ground arith)
              ]))
    ]

pub find_index-Found :
    (view : ℕ → ℕ) (b : Buffer) (bytes : Bytes)
    → IsBuffer b
    → Found view (contents b) bytes (find_index view b bytes)
unfolding find_index
find_index-Found view b bytes v = elim (Bool-cases (ltb b.size (length bytes))) [
  | inl h ↦ rw (h, find_index) (nowhere (λ j o. absurd (ground (arith, v.sized, o.inside))))
  | inr h ↦
      rw (h, find_index)
        (find_loop-Found view _ 0 (contents b) bytes (ground (arith, v.sized))
          (λ j lt. absurd (omega arith)))
]

pub to_int_small : (n : ℕ) → n < 2 ^ 31 → to_int n ≡ pos n
unfolding to_int
to_int_small n h =
    let same : n % 2 ^ 32 ≡ n = omega arith in
    let small : ltb n (2 ^ 31) ≡ true = ground arith in rw same (rw small refl)

-- What a search returns: the first place where the text occurs, or -1 if there is none.
pub data Returns (view : ℕ → ℕ) (block bytes : Bytes) : ℤ → Type 0 where
  first :
      (i : ℕ)
      → OccursAt view block bytes i
      → ((j : ℕ) → j < i → ¬ OccursAt view block bytes j)
      → Returns view block bytes (pos i)
  missing : ((j : ℕ) → ¬ OccursAt view block bytes j) → Returns view block bytes (negsuc 0)

as_result-Returns :
    (view : ℕ → ℕ) (block bytes : Bytes) (r : Option ℕ)
    → length block < 2 ^ 31
    → Found view block bytes r
    → Returns view block bytes (as_result r)
unfolding as_result
as_result-Returns view block bytes _ small (at_first i o before) =
    rw (to_int_small i (omega (arith, small, o.inside))) (first i o before)
as_result-Returns view block bytes _ small (nowhere absent) = missing absent

-- In a buffer whose size is right, of less than 2^31 bytes (an index from there on is cut to an int),
-- both searches return the first place where the text occurs, or -1 if it occurs nowhere: one as it
-- stands, the other without regard to case.
pub buffer_find-Found :
    (b : Buffer) (bytes : Bytes)
    → IsBuffer b
    → length (contents b) < 2 ^ 31
    → Returns identity (contents b) bytes (buffer_find b bytes)
      × Returns tolower (contents b) bytes (buffer_find_insensitive b bytes)
unfolding buffer_find buffer_find_insensitive find_by
buffer_find-Found b bytes v small = (
  as_result-Returns identity (contents b) bytes (find_index identity b bytes) small
      (find_index-Found identity b bytes v),
  as_result-Returns tolower (contents b) bytes (find_index tolower b bytes) small
      (find_index-Found tolower b bytes v),
)
