-- ===== src/Routing/Hwaddr.antt =====
-- `hex2num`, `hex2byte` and `hwaddr_aton` of Packet-Routing-IP-Eth/skel.c. A C string is the list of
-- its bytes; at its end the terminating 0 is read. -1 is `none`, and `false` beside what was written.
pub mod Parse
pub mod Accept
mod Tests
use communication_protocols.Base.{
  ℕ, zero, suc, ◌+◌, ◌-◌, ◌*◌, Bool, true, false, ◌&&◌, Option, none, some, [], ◌∷◌, ◌++◌, Bytes,
  leb, ltb, ◌==◌, not, if◌then◌else◌, bit_or, get_or,
}

pub hex2num : ℕ → Option ℕ
hex2num c =
    if leb b'0' c && leb c b'9'
    then some (c - b'0')
    else if leb b'a' c && leb c b'f'
    then some (c - b'a' + 10)
    else if leb b'A' c && leb c b'F'
    then some (c - b'A' + 10)
    else none

abbrev pub peek : Bytes → ℕ
peek txt = get_or txt 0 0

-- `txt++`
abbrev pub next : Bytes → Bytes
next [] = []
next (c ∷ txt) = txt

pub hex2byte : Bytes → Option ℕ
unfolding hex2num
hex2byte hex = elim (hex2num (peek hex)) [
  | none ↦ none
  | some a ↦ elim (hex2num (peek (next hex))) [ none ↦ none | some b ↦ some (bit_or (a * 16) b) ]
]

-- The loop with `left` rounds left, `i` rounds done, and the bytes written to `addr` so far.
pub aton_loop : ℕ → ℕ → Bytes → Bytes → Bool × Bytes
aton_loop zero i txt addr = (true, addr)
aton_loop (suc left) i txt addr = elim (hex2num (peek txt)) [
  | none ↦ (false, addr)
  | some a ↦ elim (hex2num (peek (next txt))) [
    | none ↦ (false, addr)
    | some b ↦
        let txt' = next (next txt) in
        let addr' = addr ++ bit_or (a * 16) b ∷ [] in
        elim (ltb i 5) [
          | false ↦ aton_loop left (i + 1) txt' addr'
          | true ↦ elim (peek txt' == b':') [
            | false ↦ (false, addr')
            | true ↦ aton_loop left (i + 1) (next txt') addr'
          ]
        ]
  ]
]

pub hwaddr_aton : Bytes → Bool × Bytes
unfolding aton_loop
hwaddr_aton txt = aton_loop 6 0 txt []
