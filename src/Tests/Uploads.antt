-- ===== src/Tests/Uploads.antt =====
-- server/handlers.rs: the upload of an offered file.
use localsend_rs.Base.{
  ◌≡◌, ◌≢◌, ◌⊎◌, ◌+◌, ◌-◌, refl, true, some, [], ◌∷◌, arith, lookup, insert, set_insert, leb,
  if◌then◌else◌,
}
use localsend_rs.Error.{bytes}
use localsend_rs.Protocol.{Text, FileMetadata, eq_ignore_ascii_case, text_eq}
use localsend_rs.Session
use localsend_rs.Session.{Session, begin_publication, finish}
use localsend_rs.Server.Http.{internal_server_error, ok}
use localsend_rs.Server.State.{set_lifecycle, World, send, committed, aborted}
use localsend_rs.Server.Upload.{
  UploadParams, Upload, standard, admit_standard, total_size, add, rollback, counter,
  ReceiveProgressContext,
}
use localsend_rs.Server.Upload.Claims.{
  MayUpload, IsClaimed, claimed, admit_standard_claims, admit_standard_once,
}
use localsend_rs.Server.Upload.Progress.{rollback-add}
use localsend_rs.Server.Body.{
  discard, UploadCall, created, chunk, is_cancelled, receive, progress_of,
}
use localsend_rs.Server.Body.Retry.{discard_retries}
use localsend_rs.Server.Body.Integrity.{IsIntact, receive-IsIntact}
use localsend_rs.Server.Body.Once.{fate, receive_once}
use localsend_rs.Tests.Samples.{receiving_world, file_of, two_files, draw}

abbrev first : UploadParams
first = record { session_id = 100; file_id = 1; token = 10 }

abbrev session : Session
session = (Session.new 100 draw 100 0 (bytes "alice") two_files).0

abbrev meta : FileMetadata
meta = file_of 1 (bytes "abc") 3

may : MayUpload first receiving_world session meta
unfolding receiving_world Session.new lookup insert
may = record {
  is_current = refl;
  same_id = refl;
  token_shown = refl;
  file_known = refl;
  slot_ready = refl;
}

abbrev upload : Upload
upload = claimed first session meta

admit_standard_claims_example :
    (s : Session) × (m : FileMetadata) × MayUpload first receiving_world s m
    × IsClaimed first receiving_world (admit_standard first receiving_world).0 s m upload
admit_standard_claims_example =
    admit_standard_claims first receiving_world upload
      (admit_standard_once first receiving_world session meta may).0

-- A hash that names each text by itself.
abbrev no_hash : Text → Text
no_hash t = t

abbrev call : UploadCall
call = record {
  creation = created 1;
  while_creating = λ w. w;
  body =
      (record { meanwhile = λ w. w; piece = chunk (bytes "ab") })
      ∷ (record { meanwhile = λ w. w; piece = chunk (bytes "c") })
      ∷ [];
  flushed = true;
  commit = some (bytes "downloads" ∷ bytes "abc" ∷ []);
  while_committing = λ w. w;
  recorded = 9;
}

abbrev admitted : World
admitted = (admit_standard first receiving_world).0

receive-IsIntact_example : IsIntact no_hash call upload
unfolding receive admit_standard receiving_world Session.new lookup is_cancelled
    Session.verify_token Session.begin_receive insert add eq_ignore_ascii_case text_eq
    begin_publication finish Session.mark_received set_insert send
receive-IsIntact_example = receive-IsIntact no_hash call upload admitted refl

receive_once_example :
    (fate 1 (receive no_hash call upload admitted).0 ≡ committed 1 ∷ fate 1 admitted)
    ⊎ ((fate 1 (receive no_hash call upload admitted).0 ≡ aborted 1 ∷ fate 1 admitted)
        × ((receive no_hash call upload admitted).1 ≢ some ok))
receive_once_example =
    receive_once no_hash call upload 1 admitted refl (λ w. refl) ((λ w. refl), ((λ w. refl), tt))
      (λ w. refl)

abbrev progress : ReceiveProgressContext
progress = progress_of upload

rollback-add_example :
    counter progress.received_bytes (rollback progress 20 (add progress 20 admitted)) ≡ (
      if leb (counter progress.received_bytes admitted + 20) progress.total_bytes
      then counter progress.received_bytes admitted
      else progress.total_bytes - 20)
unfolding Session.new total_size
rollback-add_example = rollback-add progress 20 admitted (omega arith)

discard_retries_example :
    (admit_standard first (discard upload 1 3 internal_server_error admitted).0).1 ≡ standard upload
unfolding admit_standard receiving_world Session.new lookup insert Session.begin_receive
    Session.verify_token set_lifecycle
discard_retries_example =
    discard_retries first session meta 1 3 internal_server_error admitted refl refl refl refl refl
