-- ===== src/Routing/Hwaddr/Tests.antt =====
-- Hardware addresses that are read, and one that is not.
use communication_protocols.Base.{
  ◌<◌, ◌≡◌, refl, true, false, [], ◌∷◌, Bytes, codes, length, All, map, arith,
}
use communication_protocols.Routing.Hwaddr.{hex2num, aton_loop, hwaddr_aton}
use communication_protocols.Routing.Hwaddr.Parse.{print, to_lower, hwaddr_aton-print}
use communication_protocols.Routing.Hwaddr.Accept.{hwaddr_aton_accepts}

abbrev address : Bytes
address = 0xde ∷ 0xad ∷ 0xbe ∷ 0xef ∷ 0 ∷ 1 ∷ []

upper_case : hwaddr_aton (codes "DE:ad:be:EF:00:01 eth0") ≡ (true, address)
unfolding hwaddr_aton aton_loop hex2num
upper_case = refl

no_colon : hwaddr_aton (codes "dead") ≡ (false, 0xde ∷ [])
unfolding hwaddr_aton aton_loop hex2num
no_colon = refl

hwaddr_aton-print_example : hwaddr_aton (print address (codes " eth0")) ≡ (true, address)
hwaddr_aton-print_example =
    hwaddr_aton-print address (codes " eth0") refl
      (omega arith, (omega arith, (omega arith, (omega arith, (omega arith, (omega arith, tt))))))

hwaddr_aton_accepts_example :
    (length address ≡ 6)
    × All (λ b. b < 256) address
    × (rest : Bytes) × (map to_lower (codes "DE:ad:be:EF:00:01 eth0") ≡ print address rest)
hwaddr_aton_accepts_example =
    hwaddr_aton_accepts (codes "DE:ad:be:EF:00:01 eth0") address upper_case
