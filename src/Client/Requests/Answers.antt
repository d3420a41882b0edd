-- ===== src/Client/Requests/Answers.antt =====
-- client/client.rs against server/handlers.rs: what the sender makes of the receiver's answers.
use localsend_rs.Base.{
  ℕ, ◌≡◌, ◌≢◌, inl, inr, true, false, [], arith, ◌==◌, Bool-cases, Option-cases, ap, sym,
}
use localsend_rs.Protocol.{SessionId, DeviceInfo, PrepareUploadRequest, PrepareUploadResponse}
use localsend_rs.Error.{LocalSendError, err, network, bytes}
use localsend_rs.Error
use localsend_rs.Server.Http.{
  StatusCode, ok, no_content, bad_request, unauthorized, forbidden, not_found, conflict,
  too_many_requests, internal_server_error, service_unavailable, Response, status, device_json,
  prepared,
}
use localsend_rs.Server.State.{World}
use localsend_rs.Server.Prepare.{PrepareCall, handle_standard_prepare_upload}
use localsend_rs.Server.Prepare.Accepted.{Honours, prepared_honoured}
use localsend_rs.Client.Requests.{read, Sent, prepare_upload}

abbrev pub code_of : StatusCode → ℕ
code_of ok = 200
code_of no_content = 204
code_of bad_request = 400
code_of unauthorized = 401
code_of forbidden = 403
code_of not_found = 404
code_of conflict = 409
code_of too_many_requests = 429
code_of internal_server_error = 500
code_of service_unavailable = 503

-- What a response is on the wire. The text of a status is not one of a session.
abbrev pub sent_of : Response → Sent PrepareUploadResponse
sent_of (status code) = Error.ok (code_of code, read true (err (network (bytes "not a session"))))
sent_of (prepared r) = Error.ok (200, read false (Error.ok r))
sent_of (device_json device) = Error.ok (200, read false (err (network (bytes "not a session"))))

ok_inj : (r r' : PrepareUploadResponse) → Error.ok r ≡ Error.ok r' → r ≡ r'
ok_inj r r' e = cc

code_not_listed :
    (no_session : SessionId) (target : DeviceInfo) (n : ℕ) (reason : LocalSendError)
    (r : PrepareUploadResponse)
    → prepare_upload no_session target (Error.ok (n, read true (err reason))) ≡ Error.ok r
    → r.files ≡ []
unfolding prepare_upload
code_not_listed no_session target n reason r e = elim (Bool-cases (n == 204)) [
  | inr other ↦ absurd (ground (arith, e))
  | inl none_needed ↦
      let same : Error.ok (record { session_id = no_session; files = [] }) ≡ Error.ok r =
        ground (arith, e) in
      ap (λ v. v.files) (sym (ok_inj _ r same))
]

prepare_upload-prepared :
    (no_session : SessionId) (target : DeviceInfo) (response : Response) (r : PrepareUploadResponse)
    → prepare_upload no_session target (sent_of response) ≡ Error.ok r
    → r.files ≢ []
    → response ≡ prepared r
unfolding prepare_upload
prepare_upload-prepared no_session target (status code) r e listed =
    absurd (listed (code_not_listed no_session target (code_of code) _ r e))
prepare_upload-prepared no_session target (device_json device) r e listed =
    absurd (ground (arith, e))
prepare_upload-prepared no_session target (prepared r') r e listed = elim (Option-cases target.ip) [
  | inl nowhere ↦ absurd (ground (arith, e))
  | inr (ip, there) ↦
      let same : Error.ok r' ≡ Error.ok r = ground (arith, e) in ap prepared (ok_inj r' r same)
]

-- A sender that is answered with files to send can rely on it: the receiver that answered holds the
-- session that is named, and takes exactly the tokens that are listed, for their files.
pub prepare_upload-Honours :
    (no_session : SessionId) (target : DeviceInfo) (call : PrepareCall)
    (request : PrepareUploadRequest) (w : World) (r : PrepareUploadResponse)
    → call.real.session_id ≢ call.placeholder.session_id
    → prepare_upload no_session target (sent_of (handle_standard_prepare_upload call request w).1)
      ≡ Error.ok r
    → r.files ≢ []
    → Honours r (handle_standard_prepare_upload call request w).0
prepare_upload-Honours no_session target call request w r distinct e listed =
    prepared_honoured call request w r distinct (
      prepare_upload-prepared no_session target (handle_standard_prepare_upload call request w).1 r
        e listed)
