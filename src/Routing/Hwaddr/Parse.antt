-- ===== src/Routing/Hwaddr/Parse.antt =====
-- Hardware addresses printed and read.
use communication_protocols.Base.{
  ℕ, zero, suc, ◌+◌, ◌-◌, ◌*◌, ◌/◌, ◌%◌, ◌<◌, ◌≡◌, true, some, [], ◌∷◌, ◌++◌, append_assoc, Bytes,
  length, All, ltb, leb, if◌then◌else◌, bit_or, bit_or_nibbles, arith, ◌&&◌, lt→ltb, ◌∙◌, ap,
}
use communication_protocols.Routing.Hwaddr.{hex2num, hex2byte, aton_loop, hwaddr_aton}

pub hex_digit : ℕ → ℕ
hex_digit d = if ltb d 10 then b'0' + d else b'a' + (d - 10)

unfoldable pub to_lower : ℕ → ℕ
to_lower c = if leb b'A' c && leb c b'F' then c + 32 else c

hex2num-hex_digit : (d : ℕ) → d < 16 → hex2num (hex_digit d) ≡ some d
unfolding hex2num hex_digit
hex2num-hex_digit d h = ground arith

pub hex2num-some : (c d : ℕ) → hex2num c ≡ some d → (d < 16) × (to_lower c ≡ hex_digit d)
unfolding hex2num hex_digit to_lower
hex2num-some c d h = ground arith

unfoldable pub print_byte : ℕ → Bytes → Bytes
print_byte b rest = hex_digit (b / 16) ∷ hex_digit (b % 16) ∷ rest

-- The bytes in pairs of digits, with a colon between two bytes.
unfoldable pub print : Bytes → Bytes → Bytes
unfolding print_byte
print [] rest = rest
print (b ∷ []) rest = print_byte b rest
print (b ∷ c ∷ bs) rest = print_byte b (b':' ∷ print (c ∷ bs) rest)

hex2byte-print_byte : (b : ℕ) (rest : Bytes) → b < 256 → hex2byte (print_byte b rest) ≡ some b
unfolding hex2byte print_byte
hex2byte-print_byte b rest h = ground (
  arith,
  hex2num-hex_digit (b / 16),
  hex2num-hex_digit (b % 16),
  bit_or_nibbles (b / 16) (b % 16),
)

high_digit : (b : ℕ) → b < 256 → hex2num (hex_digit (b / 16)) ≡ some (b / 16)
high_digit b h = hex2num-hex_digit (b / 16) (omega arith)

low_digit : (b : ℕ) → hex2num (hex_digit (b % 16)) ≡ some (b % 16)
low_digit b = hex2num-hex_digit (b % 16) (omega arith)

joined : (b : ℕ) → b < 256 → bit_or (b / 16 * 16) (b % 16) ≡ b
joined b h = omega (arith, bit_or_nibbles (b / 16) (b % 16) (omega arith) (omega arith))

-- A round with a colon behind its byte, and the last round.
aton_colon :
    (left i b : ℕ) (rest addr : Bytes)
    → b < 256
    → i < 5
    → aton_loop (suc left) i (print_byte b (b':' ∷ rest)) addr
      ≡ aton_loop left (i + 1) rest (addr ++ b ∷ [])
unfolding aton_loop print_byte
aton_colon left i b rest addr h hi =
    rw (high_digit b h, aton_loop) (rw (low_digit b) (rw (lt→ltb i 5 hi) (rw (joined b h))))

aton_last :
    (b : ℕ) (rest addr : Bytes)
    → b < 256
    → aton_loop 1 5 (print_byte b rest) addr ≡ (true, addr ++ b ∷ [])
unfolding aton_loop print_byte
aton_last b rest addr h = rw (high_digit b h, aton_loop) (rw (low_digit b) (rw (joined b h)))

aton_loop-print :
    (left i b : ℕ) (bs rest addr : Bytes)
    → i + left ≡ 5
    → length bs ≡ left
    → All (λ c. c < 256) (b ∷ bs)
    → aton_loop (suc left) i (print (b ∷ bs) rest) addr ≡ (true, addr ++ b ∷ bs)
unfolding print
aton_loop-print zero i b [] rest addr e len (h, hs) =
    let last : i ≡ 5 = omega arith in rw last (aton_last b rest addr h)
aton_loop-print zero i b (c ∷ bs) rest addr e len h = absurd (omega arith)
aton_loop-print (suc left) i b [] rest addr e len h = absurd (omega arith)
aton_loop-print (suc left) i b (c ∷ bs) rest addr e len (h, hs) =
    rw (aton_colon (suc left) i b (print (c ∷ bs) rest) addr h (omega arith)) (
      aton_loop-print left (i + 1) c bs rest (addr ++ b ∷ []) (omega arith) (omega arith) hs
      ∙ ap (λ (l : Bytes). (true, l)) (append_assoc addr (b ∷ []) (c ∷ bs)))

-- Six bytes printed in hexadecimal with colons between them are read back, whatever text follows.
pub hwaddr_aton-print :
    (addr rest : Bytes)
    → length addr ≡ 6
    → All (λ c. c < 256) addr
    → hwaddr_aton (print addr rest) ≡ (true, addr)
unfolding hwaddr_aton
hwaddr_aton-print [] rest len h = absurd (omega arith)
hwaddr_aton-print (b ∷ bs) rest len h =
    aton_loop-print 5 0 b bs rest [] (omega arith) (omega arith) h
