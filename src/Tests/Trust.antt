-- ===== src/Tests/Trust.antt =====
-- client/trust_policy.rs: a policy of one fingerprint.
use localsend_rs.Base.{◌≡◌, ◌↔◌, true, [], ◌∷◌}
use localsend_rs.Error.{bytes}
use localsend_rs.Protocol.{Text}
use localsend_rs.TrustPolicy.{new, allows}
use localsend_rs.TrustPolicy.Laws.{IsFirstFull, hex_values, allows-new_iff}

abbrev shown : Text
shown = bytes "AAAAAAAAAAAAAAAAAAAAAAAAAAAAAAAAAAAAAAAAAAAAAAAAAAAAAAAAAAAAAAAA"

abbrev normal : Text
normal = bytes "aaaaaaaaaaaaaaaaaaaaaaaaaaaaaaaaaaaaaaaaaaaaaaaaaaaaaaaaaaaaaaaa"

allows-new_iff_example : (allows shown (new (bytes "no digits" ∷ normal ∷ [])) ≡ true) ↔ (
    (pick : Text) × (IsFirstFull (bytes "no digits" ∷ normal ∷ []) pick
      × (hex_values shown ≡ hex_values pick)))
allows-new_iff_example = allows-new_iff (bytes "no digits" ∷ normal ∷ []) shown
