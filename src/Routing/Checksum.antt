-- ===== src/Routing/Checksum.antt =====
-- `ip_checksum` of Packet-Routing-IP-Eth/skel.c. The data is a function from its indices to bytes,
-- beside the address that it starts at. A mask of low bits is written as a remainder, a shift as a
-- quotient or a product, and the 64-bit accumulator wraps.
pub mod Sum
pub mod Fold
mod Tests
use communication_protocols.Base.{
  ℕ, zero, suc, ◌+◌, ◌-◌, ◌*◌, ◌/◌, ◌%◌, ◌^◌, true, false, ltb, ◌==◌, if◌then◌else◌, bit_or,
}

-- `htons` of a little-endian machine.
unfoldable pub htons : ℕ → ℕ
htons x = x % 256 * 256 + x / 256 % 256

abbrev pub add64 : ℕ → ℕ → ℕ
add64 a b = (a + b) % 2 ^ 64

-- `ntohl` of a 32-bit word whose bytes in memory are w 0 to w 3.
abbrev pub ntohl : (ℕ → ℕ) → ℕ
ntohl w = w 0 * 2 ^ 24 + w 1 * 2 ^ 16 + w 2 * 2 ^ 8 + w 3

-- A zeroed word with `count` of the bytes copied to its place `offset`.
abbrev pub partial_word : ℕ → ℕ → (ℕ → ℕ) → ℕ → ℕ
partial_word offset count bytes k =
    if ltb k offset then 0 else if ltb (k - offset) count then bytes (k - offset) else 0

-- The loop over `blocks` whole words from index i.
pub block_loop : ℕ → ℕ → (ℕ → ℕ) → ℕ → ℕ
block_loop zero i bytes acc = acc
block_loop (suc blocks) i bytes acc =
    block_loop blocks (i + 4) bytes (add64 acc (ntohl (λ k. bytes (i + k))))

-- `while (acc>>16)`, with fuel.
pub fold_loop : ℕ → ℕ → ℕ
fold_loop zero acc = acc
fold_loop (suc f) acc = elim (acc / 2 ^ 16 == 0) [
  | true ↦ acc
  | false ↦ fold_loop f (acc % 2 ^ 16 + acc / 2 ^ 16)
]

-- The accumulator over the rest of the data, from index i on: whole words, then the last bytes.
pub sum_rest : ℕ → ℕ → (ℕ → ℕ) → ℕ → ℕ
unfolding block_loop
sum_rest i length bytes acc =
    let whole = block_loop (length / 4) i bytes acc in
    let rest = length % 4 in
    if rest == 0
    then whole
    else add64 whole (ntohl (partial_word 0 rest (λ k. bytes (i + length / 4 * 4 + k))))

-- `count`: the bytes up to the next word, if there are as many.
pub head_count : ℕ → ℕ → ℕ
head_count offset length = if ltb length (4 - offset) then length else 4 - offset

-- The accumulator over all the bytes, those up to a word boundary first.
pub sum_words : ℕ → (ℕ → ℕ) → ℕ → ℕ
unfolding sum_rest head_count
sum_words offset bytes length =
    let count = head_count offset length in
    if offset == 0
    then sum_rest 0 length bytes 0xffff
    else sum_rest count (length - count) bytes
        (add64 0xffff (ntohl (partial_word offset count bytes)))

pub swap_bytes : ℕ → ℕ
swap_bytes acc = bit_or (acc / 256 % 256) (acc % 256 * 256)

-- The deferred carries; four rounds are enough.
pub fold : ℕ → ℕ
unfolding fold_loop
fold acc = fold_loop 4 (acc % 2 ^ 32 + acc / 2 ^ 32)

unfoldable pub ip_checksum : ℕ → (ℕ → ℕ) → ℕ → ℕ
unfolding sum_words swap_bytes fold htons
ip_checksum vdata bytes length =
    let offset = vdata % 4 in
    let acc = fold (sum_words offset bytes length) in
    htons (2 ^ 16 - 1 - (if offset % 2 == 1 then swap_bytes acc else acc) % 2 ^ 16)
