-- ===== src/Grab/Tests.antt =====
-- Witnesses for the addresses that a grab may fetch from.
use sitebrush_v.Prelude.{◌≡◌, ◌<◌, arith, [], ◌∷◌, some, false, not}
use sitebrush_v.Grab.Addresses.{validate_grab_ip}
use sitebrush_v.Grab.Octets.{reserved, mapped, validate_grab_ip-reserved}

small : 93 < 256
small = omega arith

validate_grab_ip-reserved_example :
    (validate_grab_ip false (some (93 ∷ 184 ∷ 216 ∷ 34 ∷ [])) ≡ not (reserved 93 184 216))
    × (validate_grab_ip false
          (some (mapped 93 184 216 34 small (omega arith) (omega arith) (omega arith)))
        ≡ not (reserved 93 184 216))
validate_grab_ip-reserved_example =
    validate_grab_ip-reserved 93 184 216 34 small (omega arith) (omega arith) (omega arith)
