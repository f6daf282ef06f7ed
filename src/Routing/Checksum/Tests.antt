-- ===== src/Routing/Checksum/Tests.antt =====
-- The checksum of an IP header, at an even and at an odd address.
use communication_protocols.Base.{ℕ, ◌-◌, ◌<◌, ◌≡◌, refl, [], ◌∷◌, Bytes, get_or, get_or-All, arith}
use communication_protocols.Routing.Checksum.{
  htons, block_loop, fold_loop, sum_rest, head_count, sum_words, swap_bytes, fold, ip_checksum,
}
use communication_protocols.Routing.Checksum.Sum.{IsBytes, sum16}
use communication_protocols.Routing.Checksum.Fold.{folded, ip_checksum_lem}

abbrev header : Bytes
header =
    0x45 ∷ 0 ∷ 0 ∷ 0x73 ∷ 0 ∷ 0 ∷ 0x40 ∷ 0 ∷ 0x40 ∷ 0x11 ∷ 0 ∷ 0 ∷ 0xc0 ∷ 0xa8 ∷ 0 ∷ 1 ∷ 0xc0 ∷ 0xa8
    ∷ 0 ∷ 0xc7 ∷ []

abbrev header_at : ℕ → ℕ
header_at k = get_or header k 0

header_checksum : ip_checksum 0 header_at 20 ≡ 0x61b8
unfolding ip_checksum sum_words sum_rest head_count block_loop fold fold_loop swap_bytes htons
header_checksum = refl

header_checksum_odd : ip_checksum 3 header_at 20 ≡ 0x61b8
unfolding ip_checksum sum_words sum_rest head_count block_loop fold fold_loop swap_bytes htons
header_checksum_odd = refl

header_at-IsBytes : IsBytes header_at
header_at-IsBytes = get_or-All (λ b. b < 256) header 0 (omega arith) (omega arith)

ip_checksum_lem_example : ip_checksum 3 header_at 19 ≡ htons (65535 - folded (sum16 0 19 header_at))
ip_checksum_lem_example = ip_checksum_lem 3 19 header_at header_at-IsBytes (omega arith)
