-- ===== src/Client/Verifier.antt =====
-- client/client.rs: `FingerprintVerifier`, which checks a peer's certificate during the handshake.
use localsend_rs.Base.{
  ◌≡◌, inl, inr, ap, sym, ◌∙◌, Bool, none, some, [], ◌∷◌, arith, Option-cases, is_some_and,
}
use localsend_rs.Protocol.{Text, text_eq}
use localsend_rs.Error.{Result, ok, err, network, bytes}
use localsend_rs.TrustPolicy
use localsend_rs.TrustPolicy.{normalize_fingerprint, allows}

-- The verifier of signatures beside it is another crate's.
pub record FingerprintVerifier : Type 0 where
  pub expected_fingerprint : Text

-- `FingerprintVerifier::new`; `built` is what building the signature verifier came to.
unfoldable pub new_verifier : Text → Result (Unit {0}) → Result FingerprintVerifier
unfolding normalize_fingerprint
new_verifier expected built = elim (normalize_fingerprint expected) [
  | none ↦ err (network (bytes "Invalid LocalSend TLS fingerprint"))
  | some normalized ↦ elim built [
    | err e ↦ err e
    | ok _ ↦ ok (record { expected_fingerprint = normalized })
  ]
]

-- Whether `verify_server_cert` accepts a certificate; `sha256` is another crate's hash, in hex.
unfoldable pub verify_server_cert : (Text → Text) → Text → FingerprintVerifier → Bool
unfolding normalize_fingerprint text_eq
verify_server_cert sha256 certificate v =
    is_some_and (normalize_fingerprint (sha256 certificate))
      (λ actual. text_eq actual v.expected_fingerprint)

-- The two ways in which the client pins a peer agree: a verifier for a fingerprint accepts exactly
-- the certificates whose hash the trust policy of that fingerprint allows.
pub verify_server_cert-allows :
    (sha256 : Text → Text) (certificate expected : Text) (built : Result (Unit {0}))
    (v : FingerprintVerifier)
    → new_verifier expected built ≡ ok v
    → verify_server_cert sha256 certificate v
      ≡ allows (sha256 certificate) (TrustPolicy.new (expected ∷ []))
unfolding new_verifier verify_server_cert allows TrustPolicy.new TrustPolicy.first_normalized
verify_server_cert-allows sha256 certificate expected built v made =
    elim (Option-cases (normalize_fingerprint expected)) [
      | inl bad ↦ ground (arith, made)
      | inr (normal, e) ↦ elim (Option-cases (normalize_fingerprint (sha256 certificate))) [
        | inl none' ↦ ground (arith, made)
        | inr (actual, e') ↦
            let pinned : TrustPolicy.new (expected ∷ []) ≡ TrustPolicy.pinned_fingerprint normal =
              ground (arith, e) in
            let same : ok (record { expected_fingerprint = normal }) ≡ ok v =
              ground (arith, e, made) in
            let own : v.expected_fingerprint ≡ normal = ground (arith, same) in
            let run : verify_server_cert sha256 certificate v
                ≡ allows (sha256 certificate) (TrustPolicy.pinned_fingerprint normal) =
              ground (arith, e', own) in
            run ∙ ap (λ p. allows (sha256 certificate) p) (sym pinned)
      ]
    ]
