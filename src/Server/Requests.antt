-- ===== src/Server/Requests.antt =====
-- server/handlers.rs: the two upload routes, as one request runs through them.
use localsend_rs.Base.{Bool, Option, some, ◌∷◌, if◌then◌else◌}
use localsend_rs.Protocol.{Text, PrepareUploadRequest}
use localsend_rs.Server.Http.{StatusCode, Response, forbidden}
use localsend_rs.Server.State.{World}
use localsend_rs.Server.Prepare.{PrepareCall, handle_standard_prepare_upload}
use localsend_rs.Server.Upload.{
  UploadParams, refused, standard, protected_refused, protected, admit,
}
use localsend_rs.Server.Body.{UploadCall, receive}
use localsend_rs.Server.Protected.{
  ProtectedCall, Receipt, handle_crosscopy_authorized_prepare, finish_protected,
}

-- The header chooses the protected mode; without it the standard one runs.
pub handle_prepare_upload :
    Bool → ProtectedCall → PrepareCall → PrepareUploadRequest → World → World × Response
unfolding handle_crosscopy_authorized_prepare handle_standard_prepare_upload
handle_prepare_upload has_header protected_call call request w =
    if has_header
    then handle_crosscopy_authorized_prepare protected_call request w
    else handle_standard_prepare_upload call request w

-- A protected upload's receipt, and what other requests do while its owner receives the body.
pub handle_upload :
    (Text → Text)
    → UploadParams
    → UploadCall
    → Receipt
    → (World → World)
    → World
    → World × Option StatusCode
unfolding admit receive finish_protected
handle_upload sha256 params call receipt meanwhile w =
    let (w1, admission) = admit params w in
    elim admission [
      | refused code ↦ (w1, some code)
      | protected_refused session ↦
          (record w1 { cancelled_owners = session.owner ∷ w1.cancelled_owners }, some forbidden)
      | protected session ↦
          let (w2, code) = finish_protected session receipt (meanwhile w1) in (w2, some code)
      | standard upload ↦ receive sha256 call upload w1
    ]
