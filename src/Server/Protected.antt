-- ===== src/Server/Protected.antt =====
-- server/crosscopy_authorized.rs and server/handlers.rs: the protected prepare and upload. The gate
-- and the upload's owner are the host's: what they answer is an argument.
pub mod Owners
use localsend_rs.Base.{
  ℕ, Bool, ◌&&◌, ◌||◌, not, Option, none, some, List, [], ◌∷◌, ◌==◌, leb, if◌then◌else◌, is_some,
  is_some_and, length, all,
}
use localsend_rs.Protocol.{
  Text, SessionId, Token, Instant, PrepareUploadRequest, is_empty, is_blank,
}
use localsend_rs.Server.Events.{file_received, session_done}
use localsend_rs.Server.Http.{
  StatusCode, Response, status, prepared, ok, bad_request, forbidden, conflict, service_unavailable,
  internal_server_error,
}
use localsend_rs.Server.State.{
  World, CrossCopyAuthorizedPrepareMetadata, CrossCopyAuthorizedSession, new_protected, deliver,
}

abbrev pub is_lower_hex : ℕ → Bool
is_lower_hex b = (leb b'0' b && leb b b'9') || (leb b'a' b && leb b b'f')

-- `CrossCopyAuthorizedHandoff::parse`: the one header value, if it is canonical.
pub parse : List Text → Option Text
parse [] = none
parse (value ∷ rest) =
    if not (is_empty rest)
    then none
    else if not (length value == 64) || not (all is_lower_hex value)
    then none
    else some value

-- The request's single regular file.
pub single_file : PrepareUploadRequest → Option CrossCopyAuthorizedPrepareMetadata
unfolding is_blank
single_file request = elim request.files [
  | [] ↦ none
  | (file_id, file) ∷ rest ↦
      if not (is_empty rest)
      then none
      else if is_blank file.file_name || is_some file.preview
      then none
      else some (record { sender = request.info; file_id = file_id; file = file })
]

-- What the environment brings: the header's values as texts (`none` where one is not a text), the
-- owner that the gate gives, the random values, the time, and what other requests do around the
-- gate's answer.
pub record ProtectedCall : Type 0 where
  pub values : Option (List Text)
  pub owner : Option ℕ
  pub session_id : SessionId
  pub token : Token
  pub created : Instant
  pub meanwhile : World → World

-- Installs the owner that the gate gave, or cancels it.
pub install_owner :
    ProtectedCall → CrossCopyAuthorizedPrepareMetadata → ℕ → World → World × Response
unfolding new_protected
install_owner call metadata owner w =
    let session = new_protected call.session_id call.token call.created metadata owner in
    let rejected = record w { cancelled_owners = owner ∷ w.cancelled_owners } in
    if w.crosscopy_authorized_stopping
    then (rejected, status service_unavailable)
    else if is_some w.crosscopy_authorized_session
    then (rejected, status conflict)
    else (
      record w { state = record (w.state) { crosscopy_authorized_session = some session } },
      prepared (record {
        session_id = session.session_id;
        files = (session.file_id, session.upload_token) ∷ [];
      }),
    )

-- The preflight, and the gate.
pub take_upload : ProtectedCall → CrossCopyAuthorizedPrepareMetadata → World → World × Response
unfolding install_owner
take_upload call metadata w =
    if w.crosscopy_authorized_stopping
    then (w, status service_unavailable)
    else if is_some w.crosscopy_authorized_session
    then (w, status conflict)
    else if not w.crosscopy_authorized_upload_gate
    then (w, status forbidden)
    else elim call.owner [
      | none ↦ (call.meanwhile w, status forbidden)
      | some owner ↦ install_owner call metadata owner (call.meanwhile w)
    ]

unfoldable pub handle_crosscopy_authorized_prepare :
    ProtectedCall → PrepareUploadRequest → World → World × Response
unfolding parse single_file take_upload
handle_crosscopy_authorized_prepare call request w = elim call.values [
  | none ↦ (w, status bad_request)
  | some values ↦ elim (parse values) [
    | none ↦ (w, status bad_request)
    | some handoff ↦ elim (single_file request) [
      | none ↦ (w, status bad_request)
      | some metadata ↦ take_upload call metadata w
    ]
  ]
]

-- What the owner's `receive` gives: the path and size of the file, or an error.
abbrev pub Receipt : Type 0
Receipt = Option (List Text × ℕ)

-- The end of a protected upload, after what other requests did while its body was received.
unfoldable pub finish_protected : CrossCopyAuthorizedSession → Receipt → World → World × StatusCode
unfolding deliver
finish_protected session receipt w =
    let w' =
      if is_some_and w.crosscopy_authorized_active_upload
        (λ active. active.session_id == session.session_id)
      then record w { state = record (w.state) { crosscopy_authorized_active_upload = none } }
      else w in
    elim receipt [
      | none ↦ (w', internal_server_error)
      | some (path, size) ↦ (
        deliver (session_done session.session_id) (
            deliver
              (file_received session.session_id session.metadata.file_id
                session.metadata.file.file_name path size session.metadata.sender.alias none)
              w'),
        ok,
      )
    ]
