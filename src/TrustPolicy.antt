-- ===== src/TrustPolicy.antt =====
-- client/trust_policy.rs: which peer certificates the client trusts, by their fingerprint. A text is
-- its bytes; the bytes of other characters are no hexadecimal digits and are dropped with them.
pub mod Laws
use localsend_rs.Base.{
  ℕ, Bool, true, false, ◌&&◌, ◌||◌, Option, none, some, List, [], ◌∷◌, ◌==◌, leb, if◌then◌else◌,
  retain, map, length,
}
use localsend_rs.Protocol.{Text, ascii_lower, text_eq, is_empty}

pub data TlsTrustPolicy : Type 0 where
  pinned_fingerprint : Text → TlsTrustPolicy
  insecure_for_tests : TlsTrustPolicy

-- `char::is_ascii_hexdigit`.
abbrev pub is_ascii_hexdigit : ℕ → Bool
is_ascii_hexdigit b =
    (leb b'0' b && leb b b'9') || (leb b'a' b && leb b b'f') || (leb b'A' b && leb b b'F')

unfoldable pub normalize_fingerprint : Text → Option Text
normalize_fingerprint fingerprint =
    let normalized = map ascii_lower (retain is_ascii_hexdigit fingerprint) in
    if length normalized == 64 then some normalized else none

-- `find_map` over the offered fingerprints: the first that has 64 digits.
unfoldable pub first_normalized : List Text → Option Text
unfolding normalize_fingerprint
first_normalized [] = none
first_normalized (fingerprint ∷ rest) = elim (normalize_fingerprint fingerprint) [
  | some normalized ↦ some normalized
  | none ↦ first_normalized rest
]

-- `unwrap_or_default` pins the empty text where there is none.
unfoldable pub new : List Text → TlsTrustPolicy
unfolding first_normalized
new trusted = elim (first_normalized trusted) [
  | some fingerprint ↦ pinned_fingerprint fingerprint
  | none ↦ pinned_fingerprint []
]

unfoldable pub allows : Text → TlsTrustPolicy → Bool
unfolding normalize_fingerprint text_eq
allows fingerprint insecure_for_tests = true
allows fingerprint (pinned_fingerprint expected) = elim (normalize_fingerprint fingerprint) [
  | some actual ↦ text_eq actual expected
  | none ↦ false
]

abbrev pub allows_insecure : TlsTrustPolicy → Bool
allows_insecure insecure_for_tests = true
allows_insecure (pinned_fingerprint _) = false

-- The fingerprint that is pinned, if one is.
abbrev pub pinned : TlsTrustPolicy → Option Text
pinned (pinned_fingerprint fingerprint) = if is_empty fingerprint then none else some fingerprint
pinned insecure_for_tests = none
