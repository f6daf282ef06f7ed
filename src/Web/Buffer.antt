-- ===== src/Web/Buffer.antt =====
-- Client-Web-RestAPI/buffer.c. The block behind `data` is the list of its bytes, and `none` is NULL.
-- The text that is looked for or added is the list of its `data_size` bytes.
pub mod Add
pub mod Find
pub mod Part
mod Tests
use communication_protocols.Base.{
  ℕ, zero, suc, ◌+◌, ◌-◌, ◌%◌, ◌^◌, Bool, true, false, ◌&&◌, Option, none, some, [], ◌∷◌, Bytes,
  length, get_or, leb, ltb, ◌==◌, if◌then◌else◌,
}

pub record Buffer : Type 0 where
  pub block : Option Bytes
  pub size : ℕ

unfoldable pub buffer_init : Buffer
buffer_init = record { block = none; size = 0 }

unfoldable pub buffer_destroy : Buffer → Buffer
buffer_destroy buffer = record { block = none; size = 0 }

unfoldable pub buffer_is_empty : Buffer → Bool
buffer_is_empty buffer = elim buffer.block [ none ↦ true | some bytes ↦ false ]

-- `calloc` and `realloc` to n bytes. The bytes that `realloc` adds are not specified; here they
-- are 0, and `buffer_add` writes over all of them.
unfoldable pub resize : ℕ → Bytes → Bytes
resize zero bytes = []
resize (suc n) [] = 0 ∷ resize n []
resize (suc n) (b ∷ bytes) = b ∷ resize n bytes

-- `memcpy(block + at, bytes, n)`, inside the block
unfoldable pub copy_to : ℕ → Bytes → Bytes → Bytes
copy_to at bytes [] = []
copy_to (suc at) bytes (c ∷ block) = c ∷ copy_to at bytes block
copy_to zero [] (c ∷ block) = c ∷ block
copy_to zero (b ∷ bytes) (c ∷ block) = b ∷ copy_to zero bytes block

unfoldable pub buffer_add : Buffer → Bytes → Buffer
buffer_add buffer bytes =
    let block : Bytes = elim buffer.block [
      | none ↦ resize (length bytes) []
      | some old ↦ resize (buffer.size + length bytes) old
    ] in
    record { block = some (copy_to buffer.size bytes block); size = buffer.size + length bytes }

-- The bytes of the block.
abbrev pub contents : Buffer → Bytes
contents buffer = elim buffer.block [ none ↦ [] | some bytes ↦ bytes ]

-- The inner loop at the index k = i + j; `view` is what the bytes are compared by.
unfoldable pub match_loop : (ℕ → ℕ) → Bytes → ℕ → Bytes → Bool
match_loop view block k [] = true
match_loop view block k (c ∷ cs) =
    (view (get_or block k 0) == view c) && match_loop view block (k + 1) cs

-- The outer loop with `left` rounds left, at i.
unfoldable pub find_loop : (ℕ → ℕ) → ℕ → ℕ → Bytes → Bytes → Option ℕ
find_loop view zero i block bytes = none
find_loop view (suc left) i block bytes = elim (match_loop view block i bytes) [
  | true ↦ some i
  | false ↦ find_loop view left (i + 1) block bytes
]

-- The index, a `size_t`, at which a search stops, if it does.
unfoldable pub find_index : (ℕ → ℕ) → Buffer → Bytes → Option ℕ
find_index view buffer bytes =
    if ltb buffer.size (length bytes)
    then none
    else find_loop view (buffer.size - length bytes + 1) 0 (contents buffer) bytes

-- An `int`.
pub data ℤ : Type 0 where
  pos : ℕ → ℤ
  negsuc : ℕ → ℤ

-- The `int` that a `size_t` or a sum of `int`s becomes: its lowest 32 bits, in two's complement.
unfoldable pub to_int : ℕ → ℤ
to_int n = if ltb (n % 2 ^ 32) (2 ^ 31) then pos (n % 2 ^ 32) else negsuc (2 ^ 32 - 1 - n % 2 ^ 32)

-- `return i`, or `return -1` behind the loop
unfoldable pub as_result : Option ℕ → ℤ
as_result none = negsuc 0
as_result (some i) = to_int i

-- Both searches.
unfoldable pub find_by : (ℕ → ℕ) → Buffer → Bytes → ℤ
find_by view buffer bytes = as_result (find_index view buffer bytes)

abbrev pub identity : ℕ → ℕ
identity c = c

unfoldable pub buffer_find : Buffer → Bytes → ℤ
buffer_find = find_by identity

unfoldable pub tolower : ℕ → ℕ
tolower c = if leb b'A' c && leb c b'Z' then c + 32 else c

unfoldable pub buffer_find_insensitive : Buffer → Bytes → ℤ
buffer_find_insensitive = find_by tolower
