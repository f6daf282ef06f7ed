-- ===== src/Routing/Router/Ends.antt =====
-- Steps of the router that do not fault.
use communication_protocols.Base.{◌≡◌, refl, List, []}
use communication_protocols.Routing.Table.{ok, fault}
use communication_protocols.Routing.Router.{Router, Sent, Step}

-- The state after a step, or r if the step faults.
abbrev pub state_of : Router → Step → Router
state_of r fault = r
state_of r (ok (r', out)) = r'

abbrev pub out_of : Step → List Sent
out_of fault = []
out_of (ok (r, out)) = out

abbrev pub Ends : Step → Type 0
Ends fault = ⊥
Ends (ok (r, out)) = Unit

pub Ends-ok : (r : Router) (x : Step) → Ends x → x ≡ ok (state_of r x, out_of x)
Ends-ok r fault ends = absurd ends
Ends-ok r (ok (r', out)) ends = refl
