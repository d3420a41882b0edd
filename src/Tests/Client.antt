-- ===== src/Tests/Client.antt =====
-- client/client.rs: a sender whose offer is answered, and its check of a certificate.
use localsend_rs.Base.{◌≡◌, refl, some, [], ◌∷◌, lookup, arith}
use localsend_rs.Error.{bytes}
use localsend_rs.Error
use localsend_rs.Protocol.{Text, DeviceInfo, PrepareUploadResponse}
use localsend_rs.Pin
use localsend_rs.Session
use localsend_rs.TrustPolicy
use localsend_rs.TrustPolicy.{allows}
use localsend_rs.Server.Events.{accept_files}
use localsend_rs.Server.Prepare.{handle_standard_prepare_upload, install_placeholder, settle}
use localsend_rs.Server.Prepare.Accepted.{Honours}
use localsend_rs.Server.Prepare.Invites.{Invites, settle-Invites}
use localsend_rs.Client.Requests.{prepare_upload}
use localsend_rs.Client.Requests.Answers.{prepare_upload-Honours}
use localsend_rs.Client.Verifier.{new_verifier, verify_server_cert, verify_server_cert-allows}
use localsend_rs.Tests.Samples.{alice, idle, offer, takes_first, fresh_at}

abbrev receiver : DeviceInfo
receiver = record alice { ip = some 7 }

abbrev first_only : PrepareUploadResponse
first_only = record { session_id = 100; files = (1, 10) ∷ [] }

prepare_upload-Honours_example :
    Honours first_only (handle_standard_prepare_upload takes_first offer idle).0
unfolding prepare_upload handle_standard_prepare_upload Pin.check install_placeholder lookup
    Session.new
prepare_upload-Honours_example =
    prepare_upload-Honours 0 receiver takes_first offer idle first_only (λ e. ground arith) refl
      (λ e. ground (arith, e))

settle-Invites_example :
    Invites offer first_only 1 10 (settle (accept_files (1 ∷ [])) (fresh_at 100) 5 offer idle).0
unfolding settle lookup Session.new
settle-Invites_example =
    settle-Invites (accept_files (1 ∷ [])) (fresh_at 100) 5 offer idle first_only 1 10 refl
      (λ s e. ground (arith, e)) refl

abbrev digits : Text
digits = bytes "0123456789abcdef0123456789abcdef0123456789abcdef0123456789abcdef"

verify_server_cert-allows_example :
    verify_server_cert (λ c. c) digits (record { expected_fingerprint = digits })
    ≡ allows digits (TrustPolicy.new (digits ∷ []))
unfolding new_verifier
verify_server_cert-allows_example =
    verify_server_cert-allows (λ c. c) digits digits (Error.ok tt)
      (record { expected_fingerprint = digits }) refl
