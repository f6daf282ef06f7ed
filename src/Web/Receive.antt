-- ===== src/Web/Receive.antt =====
-- `receive_from_server` of Client-Web-RestAPI/helpers.c. What the reads give is a list of chunks of
-- at least one byte; behind the last one a read gives 0. `strtol` on the text at a place, as an
-- `int` and then as a `size_t`, is a parameter.
pub mod Cut
pub mod Tests
use communication_protocols.Base.{
  drop, ℕ, zero, suc, ◌+◌, ◌-◌, ◌%◌, ◌^◌, true, false, List, [], ◌∷◌, ◌++◌, Bytes, codes, ltb,
}
use communication_protocols.Web.Buffer.{
  Buffer, ℤ, pos, negsuc, to_int, contents, buffer_init, buffer_add, buffer_find,
  buffer_find_insensitive,
}

-- What one read gives.
pub record Chunk : Type 0 where
  pub first : ℕ
  pub others : Bytes

abbrev pub bytes_of : Chunk → Bytes
bytes_of c = c.first ∷ c.others

-- `HEADER_TERMINATOR`
abbrev pub header_terminator : Bytes
header_terminator = 13 ∷ 10 ∷ 13 ∷ 10 ∷ []

-- `CONTENT_LENGTH`
abbrev pub content_length_name : Bytes
content_length_name = codes "Content-Length: "

-- The bytes of the chunks, in order.
unfoldable pub joined : List Chunk → Bytes
joined [] = []
joined (c ∷ cs) = bytes_of c ++ joined cs

-- `(size_t) header_end`
abbrev pub to_size : ℤ → ℕ
to_size (pos n) = n
to_size (negsuc n) = 2 ^ 64 - 1 - n

-- The text at a place in the buffer. A place below 0, which only the overflow of an `int` can give, has
-- none.
abbrev pub text_at : ℤ → Bytes → Bytes
text_at (pos n) bytes = drop n bytes
text_at (negsuc n) bytes = []

-- What the first loop leaves: the buffer, `header_end`, `content_length`, the reads to come.
pub record Header : Type 0 where
  pub buffer : Buffer
  pub header_end : ℤ
  pub content_length : ℕ
  pub reads : List Chunk

module _ (strtol : Bytes → ℕ) where
  -- The first loop.
  unfoldable pub header_loop : List Chunk → Buffer → ℤ → Header
  header_loop [] b header_end = record {
    buffer = b;
    header_end = header_end;
    content_length = 0;
    reads = [];
  }
  header_loop (c ∷ reads) b header_end =
      let b' = buffer_add b (bytes_of c) in
      elim (buffer_find b' header_terminator) [
        | negsuc n ↦ header_loop reads b' (negsuc n)
        | pos at ↦ elim (buffer_find_insensitive b' content_length_name) [
          | negsuc n ↦ header_loop reads b' (to_int (at + 4))
          | pos start ↦ record {
            buffer = b';
            header_end = to_int (at + 4);
            content_length = strtol (text_at (to_int (start + 16)) (contents b'));
            reads = reads;
          }
        ]
      ]

  -- The second loop.
  unfoldable pub body_loop : ℕ → List Chunk → Buffer → Buffer × List Chunk
  body_loop total [] b = (b, [])
  body_loop total (c ∷ reads) b = elim (ltb b.size total) [
    | true ↦ body_loop total reads (buffer_add b (bytes_of c))
    | false ↦ (b, c ∷ reads)
  ]

  -- The response, and the reads that are left.
  unfoldable pub receive_from_server : List Chunk → Bytes × List Chunk
  receive_from_server reads =
      let h = header_loop reads buffer_init (pos 0) in
      let total = (h.content_length + to_size h.header_end) % 2 ^ 64 in
      let (b, rest) = body_loop total h.reads h.buffer in (contents (buffer_add b (0 ∷ [])), rest)
