-- ===== src/Server/Body.antt =====
-- server/state.rs and server/handlers.rs: the body of an admitted upload, from the sink's
-- destination to the recorded file. SHA-256 and the sink are code of other crates: the hash is a
-- parameter, and the sink's results are arguments.
pub mod Integrity
pub mod Once
pub mod Retry
use localsend_rs.Base.{
  ℕ, suc, ◌+◌, ◌-◌, ◌%◌, Bool, true, false, not, Option, none, some, List, [], ◌∷◌, ◌++◌, ◌==◌,
  if◌then◌else◌, lookup, length, u64_max,
}
use localsend_rs.Protocol.{Text, SessionId, Instant, eq_ignore_ascii_case}
use localsend_rs.Session
use localsend_rs.Session.{
  StandardPublicationPermit, drop_lease, drop_permit, begin_publication, finish, mark_received,
}
use localsend_rs.Server.Events.{file_received, session_done}
use localsend_rs.Server.Http.{StatusCode, ok, bad_request, conflict, internal_server_error}
use localsend_rs.Server.State.{
  World, committed, aborted, send, lifecycle_at, set_lifecycle, set_current,
}
use localsend_rs.Server.Upload.{Upload, ReceiveProgressContext, add, rollback}

abbrev pub progress_of : Upload → ReceiveProgressContext
progress_of u = record {
  session_id = u.session_id;
  file_id = u.file_id;
  file_name = u.file_name;
  sender_alias = u.sender_alias;
  total_bytes = u.total_bytes;
  file_count = u.file_count;
  received_bytes = u.received_bytes;
}

-- A piece of the body: bytes that are written, an error of the stream, or bytes that the sink's
-- writer refuses. `meanwhile` is what other requests do before it is there.
pub data Chunk : Type 0 where
  chunk : Text → Chunk
  broken : Chunk
  unwritable : Text → Chunk

pub record BodyItem : Type 0 where
  pub meanwhile : World → World
  pub piece : Chunk

-- How the body ends. `cancelled` and `failed` carry the bytes that were reported.
pub data BodyResult : Type 0 where
  cancelled failed : ℕ → BodyResult
  written : ℕ → Text → BodyResult

-- Whether the token of the upload's slot is cancelled.
unfoldable pub is_cancelled : Upload → World → Bool
is_cancelled u w =
    elim (lookup u.receive_lease.file_id (lifecycle_at u.receive_lease.lifecycle w).slots) [
      | none ↦ false
      | some slot ↦ slot.cancellation
    ]

module _ (sha256 : Text → Text) where
  -- `write_body_to_file_with_progress` under the biased `select!`, which looks at the token first.
  -- `bytes` were written and reported, `hashed` went into the hash.
  pub write_body : Upload → List BodyItem → Bool → ℕ → Text → World → World × BodyResult
  write_body u [] flushed bytes hashed w =
      if is_cancelled u w
      then (w, cancelled bytes)
      else if flushed
      then (w, written bytes (sha256 hashed))
      else (w, failed bytes)
  write_body u (item ∷ items) flushed bytes hashed w =
      let w1 = item.meanwhile w in
      if is_cancelled u w1 then (w1, cancelled bytes) else (elim item.piece [
        | broken ↦ (w1, failed bytes)
        | unwritable _ ↦ (w1, failed bytes)
        | chunk c ↦
            let bytes' = (bytes + length c) % suc u64_max in
            write_body u items flushed bytes' (hashed ++ c)
              (add (progress_of u) (bytes' - bytes) w1)
      ])

-- The lease's `Drop`, on the lifecycle behind its pointer.
pub release_lease : Upload → World → World
unfolding set_lifecycle
release_lease u w =
    let address = u.receive_lease.lifecycle in
    set_lifecycle address (drop_lease u.receive_lease (lifecycle_at address w)) w

pub release_permit : StandardPublicationPermit → World → World
unfolding set_lifecycle
release_permit permit w =
    set_lifecycle permit.lifecycle (drop_permit permit (lifecycle_at permit.lifecycle w)) w

pub abort : ℕ → World → World
abort pending w = record w { sink_calls = aborted pending ∷ w.sink_calls }

-- What an upload comes to when its body has ended.
pub data Finished : Type 0 where
  answer : StatusCode → Finished
  publishing : ℕ → StandardPublicationPermit → Finished

-- Discards the partial and gives the claim back.
pub discard : Upload → ℕ → ℕ → StatusCode → World → World × Finished
unfolding rollback abort release_lease
discard u pending amount code w =
    (release_lease u (abort pending (rollback (progress_of u) amount w)), answer code)

pub matches_sha : Option Text → Text → Bool
matches_sha none sha = true
matches_sha (some expected) sha = eq_ignore_ascii_case sha expected

-- The choice of publication over cancellation.
unfoldable pub publish : Upload → ℕ → ℕ → World → World × Finished
unfolding rollback abort set_lifecycle
publish u pending bytes w =
    let address = u.receive_lease.lifecycle in
    let (lc, permit) = begin_publication u.receive_lease (lifecycle_at address w) in
    let w' = set_lifecycle address lc w in
    elim permit [
      | none ↦ (abort pending (rollback (progress_of u) bytes w'), answer conflict)
      | some p ↦ (w', publishing bytes p)
    ]

-- The checks after the body.
pub finish_body : Upload → ℕ → BodyResult → World → World × Finished
unfolding discard publish matches_sha
finish_body u pending (cancelled reported) w = discard u pending reported conflict w
finish_body u pending (failed reported) w = discard u pending reported internal_server_error w
finish_body u pending (written bytes sha) w =
    if not (bytes == u.declared_size)
    then discard u pending bytes internal_server_error w
    else if not (matches_sha u.declared_sha sha)
    then discard u pending bytes internal_server_error w
    else publish u pending bytes w

-- `path.file_name()`.
abbrev pub file_name_of : List Text → Text → Text
file_name_of [] other = other
file_name_of (name ∷ []) other = name
file_name_of (_ ∷ name ∷ names) other = file_name_of (name ∷ names) other

-- `publication.finish()`, and the end of the session with its last file. `none` is the panic.
unfoldable pub complete :
    StandardPublicationPermit → Bool → SessionId → World → World × Option StatusCode
unfolding set_lifecycle send set_current
complete permit all_done session_id w = elim (finish permit (lifecycle_at permit.lifecycle w)) [
  | none ↦ (w, none)
  | some lc ↦
      let w' = set_lifecycle permit.lifecycle lc w in
      if all_done
      then (set_current none (send (session_done session_id) w'), some ok)
      else (w', some ok)
]

-- The lock after the commit: records the file on the session, if it is still current.
pub record_file :
    Upload → StandardPublicationPermit → ℕ → List Text → Instant → World → World × Option StatusCode
unfolding complete send set_current release_permit
record_file u permit bytes path now w = elim w.current_session [
  | none ↦ (release_permit permit w, some internal_server_error)
  | some session ↦
      if not (session.id == u.session_id)
      then (release_permit permit w, some internal_server_error)
      else (let (session', all_done) = mark_received now u.file_id session in
          complete permit all_done u.session_id (
            send
              (file_received u.session_id u.file_id (file_name_of path u.file_name) path bytes
                u.sender_alias none)
              (set_current (some session') w)))
]

-- What the environment brings to an upload once it is admitted: the sink's answers, the body, and
-- what other requests do at each wait.
pub data Created : Type 0 where
  created : ℕ → Created
  create_rejected create_failed : Created

pub record UploadCall : Type 0 where
  pub creation : Created
  pub while_creating : World → World
  pub body : List BodyItem
  pub flushed : Bool
  pub commit : Option (List Text)
  pub while_committing : World → World
  pub recorded : Instant

pub commit_file :
    UploadCall → Upload → ℕ → ℕ → StandardPublicationPermit → World → World × Option StatusCode
unfolding record_file rollback release_permit
commit_file call u pending bytes permit w =
    let w' = record (call.while_committing w) {
      sink_calls = committed pending ∷ (call.while_committing w).sink_calls;
    } in
    elim call.commit [
      | none ↦
          (release_permit permit (rollback (progress_of u) bytes w'), some internal_server_error)
      | some path ↦ record_file u permit bytes path call.recorded w'
    ]

unfoldable pub receive : (Text → Text) → UploadCall → Upload → World → World × Option StatusCode
unfolding write_body finish_body commit_file release_lease
receive sha256 call u w =
    let w1 = call.while_creating w in
    elim call.creation [
      | create_rejected ↦ (release_lease u w1, some bad_request)
      | create_failed ↦ (release_lease u w1, some internal_server_error)
      | created pending ↦
          let (w2, body) = write_body sha256 u call.body call.flushed 0 [] w1 in
          let (w3, finished) = finish_body u pending body w2 in
          elim finished [
            | answer code ↦ (w3, some code)
            | publishing bytes permit ↦ commit_file call u pending bytes permit w3
          ]
    ]
