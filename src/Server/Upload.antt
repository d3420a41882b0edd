-- ===== src/Server/Upload.antt =====
-- server/handlers.rs: `handle_upload` and the progress of a receive session, one definition for each
-- stretch without a wait. The sink is the embedder's: its results are arguments.
pub mod Claims
pub mod Progress
use localsend_rs.Base.{
  ℕ, ◌-◌, min, not, ◌||◌, Option, none, some, List, [], ◌∷◌, ◌==◌, if◌then◌else◌, lookup, insert,
  values, length, saturating_add, u64_max,
}
use localsend_rs.Protocol.{Text, FileId, SessionId, Token, FileMetadata}
use localsend_rs.Session
use localsend_rs.Session.{Session, StandardReceiveLease}
use localsend_rs.Server.Events.{file_receive_progress}
use localsend_rs.Server.Http.{StatusCode, forbidden, not_found, conflict}
use localsend_rs.Server.State.{World, CrossCopyAuthorizedSession, send, lifecycle_at, set_lifecycle}

pub record UploadParams : Type 0 where
  pub session_id : SessionId
  pub file_id : FileId
  pub token : Token

-- `ReceiveProgressContext`; `received_bytes` is the address of the session's counter.
pub record ReceiveProgressContext : Type 0 where
  pub session_id : SessionId
  pub file_id : FileId
  pub file_name : Text
  pub sender_alias : Text
  pub total_bytes : ℕ
  pub file_count : ℕ
  pub received_bytes : ℕ

unfoldable pub counter : ℕ → World → ℕ
counter address w = elim (lookup address w.counters) [ none ↦ 0 | some n ↦ n ]

unfoldable pub set_counter : ℕ → ℕ → World → World
set_counter address n w = record w { counters = insert address n w.counters }

unfoldable pub emit : ReceiveProgressContext → ℕ → World → World
unfolding send
emit p bytes_received w =
    send
      (file_receive_progress p.session_id p.file_id p.file_name p.sender_alias bytes_received
        p.total_bytes p.file_count)
      w

-- The counter's new value on `add`, capped at the session's total.
abbrev pub added : ℕ → ℕ → ℕ → ℕ
added total current amount = min (saturating_add u64_max current amount) total

unfoldable pub add : ReceiveProgressContext → ℕ → World → World
unfolding counter set_counter emit
add p amount w =
    let next = added p.total_bytes (counter p.received_bytes w) amount in
    emit p next (set_counter p.received_bytes next w)

unfoldable pub rollback : ReceiveProgressContext → ℕ → World → World
unfolding counter set_counter emit
rollback p amount w =
    let next = counter p.received_bytes w - amount in
    emit p next (set_counter p.received_bytes next w)

-- What an admitted upload takes along when it releases the lock.
pub record Upload : Type 0 where
  pub file_name : Text
  pub session_id : SessionId
  pub file_id : FileId
  pub sender_alias : Text
  pub declared_size : ℕ
  pub declared_sha : Option Text
  pub received_bytes : ℕ
  pub total_bytes : ℕ
  pub file_count : ℕ
  pub receive_lease : StandardReceiveLease

-- `fold(0, u64::saturating_add)` over the sizes of the session's files.
unfoldable pub total_size : List FileMetadata → ℕ → ℕ
total_size [] acc = acc
total_size (file ∷ files) acc = total_size files (saturating_add u64_max acc file.size)

pub data Admission : Type 0 where
  refused : StatusCode → Admission
  standard : Upload → Admission
  -- A protected session, its owner to be cancelled; or one to receive the body.
  protected_refused protected : CrossCopyAuthorizedSession → Admission

-- The standard session's checks, up to the claim of the file.
unfoldable pub admit_standard : UploadParams → World → World × Admission
unfolding total_size set_lifecycle
admit_standard params w = elim w.current_session [
  | none ↦ (w, refused forbidden)
  | some session ↦
      if not (session.id == params.session_id)
      then (w, refused forbidden)
      else if not (Session.verify_token params.file_id params.token session)
      then (w, refused forbidden)
      else elim (lookup params.file_id session.files) [
        | none ↦ (w, refused not_found)
        | some meta ↦
            elim (Session.begin_receive session.receive_lifecycle params.file_id
              (lifecycle_at session.receive_lifecycle w)) [
                | none ↦ (w, refused conflict)
                | some (lc, lease) ↦ (
                  set_lifecycle session.receive_lifecycle lc w,
                  standard (record {
                    file_name = meta.file_name;
                    session_id = session.id;
                    file_id = params.file_id;
                    sender_alias = session.sender_alias;
                    declared_size = meta.size;
                    declared_sha = meta.sha256;
                    received_bytes = session.received_bytes;
                    total_bytes = total_size (values session.files) 0;
                    file_count = length session.files;
                    receive_lease = lease;
                  }),
                )
              ]
      ]
]

-- The head of `handle_upload`: a protected session with the id comes first, and is taken.
unfoldable pub admit : UploadParams → World → World × Admission
unfolding admit_standard
admit params w = elim w.crosscopy_authorized_session [
  | none ↦ admit_standard params w
  | some session ↦
      if not (session.session_id == params.session_id)
      then admit_standard params w
      else if not (session.file_id == params.file_id) || not (session.upload_token == params.token)
      then (
        record w { state = record (w.state) { crosscopy_authorized_session = none } },
        protected_refused session,
      )
      else (
        record w {
          state = record (w.state) {
            crosscopy_authorized_session = none;
            crosscopy_authorized_active_upload =
                some (record { session_id = session.session_id; cancellation = session.owner });
          };
        },
        protected session,
      )
]
