-- ===== src/Server/Body/Retry.antt =====
-- server/handlers.rs: a sender may send a file again after its upload failed.
use localsend_rs.Base.{ℕ, ◌≡◌, ◌∙◌, refl, some, true, lookup, lookup-insert, arith, ==_refl}
use localsend_rs.Protocol.{FileMetadata}
use localsend_rs.Session.{Session, receiving, drop_lease}
use localsend_rs.Session.Phases.{slot_of, at_phase, slot_of-drop_lease}
use localsend_rs.Server.Http.{StatusCode}
use localsend_rs.Server.State.{World, lifecycle_at, set_lifecycle, send}
use localsend_rs.Server.Upload.{
  UploadParams, Upload, standard, admit_standard, rollback, set_counter, emit,
}
use localsend_rs.Server.Upload.Claims.{claimed, admit_standard_once}
use localsend_rs.Server.Body.{discard, abort, release_lease}

lifecycle_at-discard :
    (params : UploadParams) (session : Session) (meta : FileMetadata) (pending n : ℕ)
    (code : StatusCode) (w : World)
    → lifecycle_at session.receive_lifecycle
        (discard (claimed params session meta) pending n code w).0
      ≡ drop_lease
          (claimed params session meta).receive_lease
          (lifecycle_at session.receive_lifecycle w)
unfolding discard abort rollback release_lease set_lifecycle set_counter emit send
lifecycle_at-discard params session meta pending n code w = ground (
  arith,
  lookup-insert session.receive_lifecycle session.receive_lifecycle
      (drop_lease (claimed params session meta).receive_lease
        (lifecycle_at session.receive_lifecycle w))
      w.lifecycles,
)

current-discard :
    (u : Upload) (pending n : ℕ) (code : StatusCode) (w : World)
    → (discard u pending n code w).0.current_session ≡ w.current_session
unfolding discard abort rollback release_lease set_lifecycle set_counter emit send
current-discard u pending n code w = refl

-- An upload that failed before its publication, in a session that is still current and while the
-- file's slot is still receiving (so was not cancelled), leaves the file free: the same request is
-- admitted again, with the same declared size and hash.
pub discard_retries :
    (params : UploadParams) (session : Session) (meta : FileMetadata) (pending n : ℕ)
    (code : StatusCode) (w : World)
    → w.current_session ≡ some session
    → session.id ≡ params.session_id
    → lookup params.file_id session.tokens ≡ some params.token
    → lookup params.file_id session.files ≡ some meta
    → at_phase receiving (slot_of params.file_id (lifecycle_at session.receive_lifecycle w)) ≡ true
    → (admit_standard params (discard (claimed params session meta) pending n code w).0).1
      ≡ standard (claimed params session meta)
discard_retries params session meta pending n code w current same shown known held =
    let w' = (discard (claimed params session meta) pending n code w).0 in
    let lc = lifecycle_at session.receive_lifecycle w in
    (admit_standard_once params w' session meta (record {
      is_current = current-discard (claimed params session meta) pending n code w ∙ current;
      same_id = same;
      token_shown = shown;
      file_known = known;
      slot_ready = rw (lifecycle_at-discard params session meta pending n code w) (
          ground (
            arith,
            ==_refl params.file_id,
            slot_of-drop_lease params.file_id (claimed params session meta).receive_lease lc,
          ));
    })).0
