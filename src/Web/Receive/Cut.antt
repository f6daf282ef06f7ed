-- ===== src/Web/Receive/Cut.antt =====
-- A response that `receive_from_server` of helpers.c gets in any chunks.
use communication_protocols.Base.{
  ℕ, zero, suc, ◌+◌, ◌%◌, ◌^◌, ◌≤◌, ◌<◌, ◌≡◌, refl, sym, ap, ◌∙◌, inl, inr, ◌⊎◌, true, false, none,
  some, List, [], ◌∷◌, ◌++◌, append_assoc, append-nil, Bytes, length, length-append, drop, ltb,
  arith,
}
use mathlib.Core.Path.{subst}
use communication_protocols.Web.Buffer.{
  Buffer, ℤ, pos, negsuc, to_int, find_index, find_by, as_result, contents, buffer_init, buffer_add,
  buffer_find, buffer_find_insensitive, identity, tolower,
}
use communication_protocols.Web.Buffer.Add.{IsBuffer, buffer_init-IsBuffer, buffer_add-contents}
use communication_protocols.Web.Buffer.Find.{Found, find_index-Found, to_int_small}
use communication_protocols.Web.Buffer.Part.{Found-part}
use communication_protocols.Web.Receive.{
  Chunk, joined, bytes_of, header_terminator, content_length_name, to_size, text_at, Header,
  header_loop, body_loop, receive_from_server,
}

-- The text is a response: its header gives the content length with these digits, and as many bytes as
-- n says follow the header.
pub record IsResponse (text digits : Bytes) (n : ℕ) : Type 0 where
  pub header_at : ℕ
  pub length_at : ℕ
  pub after : Bytes
  pub header : Found identity text header_terminator (some header_at)
  pub name : Found tolower text content_length_name (some length_at)
  pub number : drop (length_at + 16) text ≡ digits ++ 13 ∷ after
  pub inside : length_at + 16 + length digits < header_at + 4
  pub whole : length text ≡ header_at + 4 + n

head_same : (c d : ℕ) (xs ys : Bytes) → c ∷ xs ≡ d ∷ ys → c ≡ d
head_same c d xs ys e = cc

tail_same : (c d : ℕ) (xs ys : Bytes) → c ∷ xs ≡ d ∷ ys → xs ≡ ys
tail_same c d xs ys e = cc

-- The first part of a text, from behind the digits on.
drop-part :
    (i : ℕ) (part rest digits after : Bytes)
    → drop i (part ++ rest) ≡ digits ++ 13 ∷ after
    → i + length digits < length part
    → (after' : Bytes) × (drop i part ≡ digits ++ 13 ∷ after')
drop-part zero [] rest digits after e h = absurd (omega arith)
drop-part zero (c ∷ part) rest [] after e h =
    (part, ap (λ d. d ∷ part) (head_same c 13 (part ++ rest) after e))
drop-part zero (c ∷ part) rest (d ∷ digits) after e h =
    let (after', f) =
      drop-part zero part rest digits after (tail_same c d (part ++ rest) (digits ++ 13 ∷ after) e)
        (omega arith) in
    (
      after',
      ap (λ x. x ∷ part) (head_same c d (part ++ rest) (digits ++ 13 ∷ after) e)
          ∙ ap (λ l. d ∷ l) f,
    )
drop-part (suc i) [] rest digits after e h = absurd (omega arith)
drop-part (suc i) (c ∷ part) rest digits after e h =
    drop-part i part rest digits after e (omega arith)

suc_part : (part rest text : Bytes) → part ++ rest ≡ text → length part ≤ length text
suc_part part rest text e = omega (arith, length-append part rest, ap length e)

joined_more :
    (b : Buffer) (c : Chunk) (chunks : List Chunk) (text : Bytes)
    → IsBuffer b
    → contents b ++ joined (c ∷ chunks) ≡ text
    → contents (buffer_add b (bytes_of c)) ++ joined chunks ≡ text
unfolding joined
joined_more b c chunks text v e =
    ap (λ l. l ++ joined chunks) (buffer_add-contents b (bytes_of c) v).0
    ∙ append_assoc (contents b) (bytes_of c) (joined chunks)
    ∙ e

module _ (strtol : Bytes → ℕ) where
  -- The second loop reads up to the end of the text.
  body_loop-whole :
      (chunks more : List Chunk) (b : Buffer) (text : Bytes)
      → IsBuffer b
      → contents b ++ joined chunks ≡ text
      → (b' : Buffer) × (body_loop strtol (length text) (chunks ++ more) b ≡ (b', more))
        × (contents b' ≡ text)
        × IsBuffer b'
  unfolding body_loop joined
  body_loop-whole [] [] b text v e = (b, refl, sym (append-nil (contents b)) ∙ e, v)
  body_loop-whole [] (c ∷ more) b text v e =
      let all : contents b ≡ text = sym (append-nil (contents b)) ∙ e in
      let size = ap length all in
      let enough : ltb b.size (length text) ≡ false = ground (arith, v.sized) in
      (b, rw (enough, body_loop) refl, all, v)
  body_loop-whole (c ∷ chunks) more b text v e =
      let e' = joined_more b c chunks text v e in
      let (held, v') = buffer_add-contents b (bytes_of c) v in
      let (b', f, all, v'') = body_loop-whole chunks more (buffer_add b (bytes_of c)) text v' e' in
      let size = length-append (contents b) (bytes_of c ++ joined chunks) in
      let total = ap length e in
      let less : ltb b.size (length text) ≡ true = ground (arith, v.sized) in
      (b', rw (less, body_loop) f, all, v'')

  -- What the first loop leaves, in a response of n bytes behind the header.
  record Stopped (text : Bytes) (n : ℕ) (more : List Chunk) (h : Header) : Type 0 where
    left : List Chunk
    reads_left : h.reads ≡ left ++ more
    held : contents h.buffer ++ joined left ≡ text
    right : IsBuffer h.buffer
    total : h.content_length + to_size h.header_end ≡ length text

  -- What a search returns, by the index at which it stops.
  returned :
      (view : ℕ → ℕ) (b : Buffer) (bytes : Bytes) (i : ℕ)
      → find_index view b bytes ≡ some i
      → i < 2 ^ 31
      → find_by view b bytes ≡ pos i
  unfolding find_by as_result
  returned view b bytes i e small = rw e (to_int_small i small)

  missed :
      (view : ℕ → ℕ) (b : Buffer) (bytes : Bytes)
      → find_index view b bytes ≡ none
      → find_by view b bytes ≡ negsuc 0
  unfolding find_by as_result
  missed view b bytes e = rw e refl

  -- The searches in the first part of a response of less than 2^31 bytes.
  found_header :
      (text digits : Bytes) (n : ℕ) (b : Buffer) (rest : Bytes)
      → (r : IsResponse text digits n) → IsBuffer b
      → contents b ++ rest ≡ text
      → length text < 2 ^ 31
      → ((buffer_find b header_terminator ≡ pos r.header_at)
          × (r.header_at + 4 ≤ length (contents b)))
        ⊎ ((buffer_find b header_terminator ≡ negsuc 0) × (length (contents b) < r.header_at + 4))
  unfolding buffer_find
  found_header text digits n b rest r v e bound =
      let index = find_index identity b header_terminator in
      elim (Found-part identity (contents b) rest header_terminator r.header_at index
        (subst (λ l. Found identity l header_terminator (some r.header_at)) (sym e) r.header)
        (find_index-Found identity b header_terminator v)) [
          | inl (at, past) ↦ inl (
            returned identity b header_terminator r.header_at at (omega (arith, bound, r.whole)),
            past,
          )
          | inr (absent, short) ↦ inr (missed identity b header_terminator absent, short)
        ]

  found_name :
      (text digits : Bytes) (n : ℕ) (b : Buffer) (rest : Bytes)
      → (r : IsResponse text digits n) → IsBuffer b
      → contents b ++ rest ≡ text
      → length text < 2 ^ 31
      → ((buffer_find_insensitive b content_length_name ≡ pos r.length_at)
          × (r.length_at + 16 ≤ length (contents b)))
        ⊎ ((buffer_find_insensitive b content_length_name ≡ negsuc 0)
            × (length (contents b) < r.length_at + 16))
  unfolding buffer_find_insensitive
  found_name text digits n b rest r v e bound =
      let index = find_index tolower b content_length_name in
      elim (Found-part tolower (contents b) rest content_length_name r.length_at index
        (subst (λ l. Found tolower l content_length_name (some r.length_at)) (sym e) r.name)
        (find_index-Found tolower b content_length_name v)) [
          | inl (at, past) ↦ inl (
            returned tolower b content_length_name r.length_at at
                (omega (arith, bound, r.inside, r.whole)),
            past,
          )
          | inr (absent, short) ↦ inr (missed tolower b content_length_name absent, short)
        ]

  header_loop-whole :
      (text digits : Bytes) (n : ℕ) (chunks more : List Chunk) (b : Buffer) (e : ℤ)
      → IsResponse text digits n
      → length text < 2 ^ 31
      → ((after : Bytes) → strtol (digits ++ 13 ∷ after) ≡ n)
      → IsBuffer b
      → contents b ++ joined chunks ≡ text
      → length (contents b) < length text
      → Stopped text n more (header_loop strtol (chunks ++ more) b e)
  unfolding header_loop joined
  header_loop-whole text digits n [] more b e r bound reads v same short =
      absurd (omega (arith, short, ap length (sym (append-nil (contents b)) ∙ same)))
  header_loop-whole text digits n (c ∷ chunks) more b e r bound reads v same short =
      let b' = buffer_add b (bytes_of c) in
      let v' = (buffer_add-contents b (bytes_of c) v).1 in
      let same' = joined_more b c chunks text v same in
      elim (found_header text digits n b' (joined chunks) r v' same' bound) [
        | inr (no_header, less) ↦
            rw (no_header, header_loop)
              (header_loop-whole text digits n chunks more b' (negsuc 0) r bound reads v' same'
                (omega (arith, less, r.whole)))
        | inl (found, past) ↦ elim (found_name text digits n b' (joined chunks) r v' same' bound) [
          | inr (no_name, less) ↦ absurd (omega (arith, less, past, r.inside))
          | inl (named, behind) ↦
              let (after, number) =
                drop-part (r.length_at + 16) (contents b') (joined chunks) digits r.after
                  (rw same' r.number) (omega (arith, past, r.inside)) in
              let name_end =
                to_int_small (r.length_at + 16) (omega (arith, bound, r.inside, r.whole)) in
              let end = to_int_small (r.header_at + 4) (omega (arith, bound, r.whole)) in
              rw (found, named, header_loop)
                (record {
                  left = chunks;
                  reads_left = refl;
                  held = same';
                  right = v';
                  total =
                      ap
                        (λ z.
                          strtol (text_at (to_int (r.length_at + 16)) (contents b')) + to_size z)
                        end
                      ∙ ap (λ z. strtol (text_at z (contents b')) + (r.header_at + 4)) name_end
                      ∙ ap (λ k. k + (r.header_at + 4)) (ap strtol number ∙ reads after)
                      ∙ omega (arith, r.whole);
                })
        ]
      ]

  finished : Buffer × List Chunk → Bytes × List Chunk
  finished (b, rest) = (contents (buffer_add b (0 ∷ [])), rest)

  both_loops :
      (text : Bytes) (n : ℕ) (more : List Chunk) (h : Header)
      → length text < 2 ^ 31
      → Stopped text n more h
      → finished
          (body_loop strtol ((h.content_length + to_size h.header_end) % 2 ^ 64) h.reads h.buffer)
        ≡ (text ++ 0 ∷ [], more)
  unfolding finished
  both_loops text n more h bound s =
      let total : (h.content_length + to_size h.header_end) % 2 ^ 64 ≡ length text =
        omega (arith, s.total) in
      let (b, f, all, v) = body_loop-whole s.left more h.buffer text s.right s.held in
      ap finished (
        ap (λ t. body_loop strtol t h.reads h.buffer) total
        ∙ ap (λ l. body_loop strtol (length text) l h.buffer) s.reads_left
        ∙ f)
      ∙ ap (λ l. (l, more)) ((buffer_add-contents b (0 ∷ []) v).0 ∙ ap (λ l. l ++ 0 ∷ []) all)

  -- A response of less than 2^31 bytes, in which the first content length stands in the header and its
  -- digits are read as n, and n bytes follow the header: however it is cut into chunks of at least one
  -- byte, and whatever follows, the function returns the response, all of it and no more, with a
  -- final 0, and reads none of the chunks that follow.
  pub receive_from_server-whole :
      (text digits : Bytes) (n : ℕ) (chunks more : List Chunk)
      → IsResponse text digits n
      → ((after : Bytes) → strtol (digits ++ 13 ∷ after) ≡ n)
      → length text < 2 ^ 31
      → joined chunks ≡ text
      → receive_from_server strtol (chunks ++ more) ≡ (text ++ 0 ∷ [], more)
  unfolding receive_from_server finished buffer_init
  receive_from_server-whole text digits n chunks more r reads bound same =
      both_loops text n more _ bound (
        header_loop-whole text digits n chunks more buffer_init (pos 0) r bound reads
          buffer_init-IsBuffer same (omega (arith, r.whole)))
