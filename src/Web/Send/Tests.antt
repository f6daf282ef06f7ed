-- ===== src/Web/Send/Tests.antt =====
-- Three writes of a message.
use communication_protocols.Base.{◌≡◌, refl, [], ◌∷◌, codes}
use communication_protocols.Web.Send.{send_to_server}

sent_in_parts : send_to_server (2 ∷ 1 ∷ 9 ∷ []) (codes "GET /") ≡ (codes "GET /", [])
unfolding send_to_server
sent_in_parts = refl

cut_off : send_to_server (2 ∷ 0 ∷ 9 ∷ []) (codes "GET /") ≡ (codes "GE", codes "T /")
unfolding send_to_server
cut_off = refl
