-- ===== src/Client/Requests.antt =====
-- client/client.rs: the requests of `LocalSendClient`. The HTTP client is another crate's: a request
-- is given what became of it, and returns what the caller sees.
pub mod Answers
use localsend_rs.Base.{
  ℕ, ◌+◌, ◌%◌, ◌^◌, Bool, true, false, ◌&&◌, ◌||◌, Option, none, some, List, [], ◌∷◌, ◌==◌, leb,
  ltb, if◌then◌else◌,
}
use localsend_rs.Protocol.{Text, SessionId, DeviceInfo, PrepareUploadResponse}
use localsend_rs.Error.{
  LocalSendError, Result, ok, err, network, rejected, http_failed, invalid_pin, session_blocked,
  rate_limited, bytes,
}

-- A body: it could not be read, or it is read, is empty or not, and decodes to a value or not.
pub data Body (A : Type 0) : Type 0 where
  unread : LocalSendError → Body A
  read : Bool → Result A → Body A

-- An error of the transport, or a status with a body.
abbrev pub Sent : Type 0 → Type 0
Sent A = Result (ℕ × Body A)

abbrev pub is_success : ℕ → Bool
is_success code = leb 200 code && ltb code 300

-- `target.ip.as_ref().ok_or_else(…)?`, before anything is sent.
abbrev pub with_ip {ℓ} : {A : Type ℓ} → DeviceInfo → Result A → Result A
with_ip target rest = elim target.ip [
  | none ↦ err (network (bytes "Target IP not provided"))
  | some _ ↦ rest
]

unfoldable pub register : DeviceInfo → Sent DeviceInfo → Result DeviceInfo
register target sent = with_ip target (elim sent [
  | err e ↦ err e
  | ok (code, body) ↦
      if is_success code
      then (elim body [
        | unread e ↦ err e
        | read true _ ↦ ok target
        | read false (ok info) ↦ ok info
        | read false (err _) ↦ ok target
      ])
      else if code == 401 || code == 403
      then err (rejected code)
      else err (http_failed code (bytes "Registration failed"))
])

abbrev pub decode : Body PrepareUploadResponse → Result PrepareUploadResponse
decode (unread e) = err e
decode (read _ r) = r

-- `no_session` is the identifier of the empty text.
unfoldable pub prepare_upload :
    SessionId → DeviceInfo → Sent PrepareUploadResponse → Result PrepareUploadResponse
prepare_upload no_session target sent = with_ip target (elim sent [
  | err e ↦ err e
  | ok (code, body) ↦
      if code == 200
      then decode body
      else if code == 204
      then ok (record { session_id = no_session; files = [] })
      else if code == 401
      then err invalid_pin
      else if code == 403
      then err (rejected code)
      else if code == 409
      then err session_blocked
      else if code == 429
      then err rate_limited
      else if code == 500
      then err (network (bytes "Server error"))
      else err (http_failed code (bytes "Prepare upload failed"))
])

-- The end of an upload: 200 and 204 are its success.
abbrev pub uploaded : Text → ℕ → Result (Unit {0})
uploaded reason code = if code == 200 || code == 204 then ok tt else err (http_failed code reason)

abbrev pub on_reply {ℓ} : {A : Type ℓ} → Result ℕ → (ℕ → Result A) → Result A
on_reply (err e) f = err e
on_reply (ok code) f = f code

-- `upload_file_with_rate_limit`: `length` is what opening the file comes to.
unfoldable pub upload_file : DeviceInfo → Result ℕ → Result ℕ → Result (Unit {0})
upload_file target length sent =
    with_ip target
      (elim length [ err e ↦ err e | ok _ ↦ on_reply sent (uploaded (bytes "File upload failed")) ])

unfoldable pub upload_bytes : DeviceInfo → Result ℕ → Result (Unit {0})
upload_bytes target sent = with_ip target (on_reply sent (uploaded (bytes "Upload failed")))

unfoldable pub cancel : DeviceInfo → Result ℕ → Result (Unit {0})
cancel target sent = with_ip target (
    on_reply sent
      (λ code. if is_success code then ok tt else err (http_failed code (bytes "Cancel failed"))))

-- What the progress callback is told of the chunks that go out, the counter a `u64`; a chunk that
-- could not be read is not counted.
unfoldable pub counted : ℕ → ℕ → List (Option ℕ) → List (ℕ × ℕ)
counted total sent [] = []
counted total sent (none ∷ chunks) = counted total sent chunks
counted total sent (some n ∷ chunks) =
    let sent' = (sent + n) % 2 ^ 64 in (sent', total) ∷ counted total sent' chunks
