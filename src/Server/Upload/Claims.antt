-- ===== src/Server/Upload/Claims.antt =====
-- server/handlers.rs: who may upload. The checks of `handle_upload` against the session.
use localsend_rs.Base.{
  ℕ, ◌≡◌, refl, inl, inr, true, Option, none, some, ◌==◌, if◌then◌else◌, lookup, values, length,
  arith, Option-cases, Bool-cases, lookup-insert,
}
use localsend_rs.Protocol.{FileId, Token, FileMetadata}
use localsend_rs.Session.{
  Session, ReceiveLifecycle, ReceiveSlot, ready, receiving, phase_eq, verify_token, set_phase,
}
use localsend_rs.Session.Phases.{
  slot_of, slot_of-set_phase, begin_receive_lem, begin_receive-none, at_phase,
}
use localsend_rs.Server.Http.{conflict}
use localsend_rs.Server.State.{World, lifecycle_at, set_lifecycle}
use localsend_rs.Server.Upload.{
  UploadParams, Upload, Admission, refused, standard, admit_standard, total_size,
}

verify_token_lem :
    (f : FileId) (token : Token) (s : Session)
    → verify_token f token s ≡ true
    → lookup f s.tokens ≡ some token
unfolding verify_token
verify_token_lem f token s h = ground arith

-- What admission rests on: the session is current, the request names it and shows the token that was
-- issued for the file, the file is one of the session's, and its slot is ready.
pub record MayUpload (params : UploadParams) (w : World) (session : Session) (meta : FileMetadata)
    : Type 0 where
  pub is_current : w.current_session ≡ some session
  pub same_id : session.id ≡ params.session_id
  pub token_shown : lookup params.file_id session.tokens ≡ some params.token
  pub file_known : lookup params.file_id session.files ≡ some meta
  pub slot_ready :
      at_phase ready (slot_of params.file_id (lifecycle_at session.receive_lifecycle w)) ≡ true

-- What the claim leaves: the upload carries the file's declared size and hash and the lease on its
-- slot, which is receiving; nothing but the session's lifecycle has changed.
pub record IsClaimed (params : UploadParams) (w w' : World) (session : Session)
    (meta : FileMetadata) (u : Upload) : Type 0 where
  pub session_id_of : u.session_id ≡ session.id
  pub file_id_of : u.file_id ≡ params.file_id
  pub size_of : u.declared_size ≡ meta.size
  pub sha_of : u.declared_sha ≡ meta.sha256
  pub lease_of :
      u.receive_lease
      ≡ record { lifecycle = session.receive_lifecycle; file_id = params.file_id; armed = true }
  pub slot_taken :
      at_phase receiving (slot_of params.file_id (lifecycle_at session.receive_lifecycle w')) ≡ true
  pub same_state : w'.state ≡ w.state

-- The upload that a claim of a file makes.
abbrev pub claimed : UploadParams → Session → FileMetadata → Upload
claimed params session meta = record {
  file_name = meta.file_name;
  session_id = session.id;
  file_id = params.file_id;
  sender_alias = session.sender_alias;
  declared_size = meta.size;
  declared_sha = meta.sha256;
  received_bytes = session.received_bytes;
  total_bytes = total_size (values session.files) 0;
  file_count = length session.files;
  receive_lease = record {
    lifecycle = session.receive_lifecycle;
    file_id = params.file_id;
    armed = true;
  };
}

-- The outcome of the checks, as a table.
abbrev pub outcome :
    UploadParams → World → Session → FileMetadata → Option ReceiveSlot → World × Admission
outcome params w session meta none = (w, refused conflict)
outcome params w session meta (some slot) =
    if phase_eq slot.phase ready
    then (
      set_lifecycle session.receive_lifecycle
          (set_phase params.file_id slot receiving (lifecycle_at session.receive_lifecycle w)) w,
      standard (claimed params session meta),
    )
    else (w, refused conflict)

admit_checked :
    (params : UploadParams) (w : World) (session : Session) (meta : FileMetadata)
    → w.current_session ≡ some session
    → session.id ≡ params.session_id
    → verify_token params.file_id params.token session ≡ true
    → lookup params.file_id session.files ≡ some meta
    → admit_standard params w
      ≡ outcome params w session meta
          (slot_of params.file_id (lifecycle_at session.receive_lifecycle w))
unfolding admit_standard
admit_checked params w session meta e same token known =
    elim (Option-cases (slot_of params.file_id (lifecycle_at session.receive_lifecycle w))) [
      | inl none_there ↦ ground (
        arith,
        begin_receive-none session.receive_lifecycle params.file_id
            (lifecycle_at session.receive_lifecycle w) none_there,
      )
      | inr (slot, there) ↦ ground (
        arith,
        begin_receive_lem session.receive_lifecycle params.file_id slot
            (lifecycle_at session.receive_lifecycle w) there,
      )
    ]

admitted_checks :
    (params : UploadParams) (w : World) (u : Upload)
    → (admit_standard params w).1 ≡ standard u
    → (session : Session) × (meta : FileMetadata) × (w.current_session ≡ some session)
      × (session.id ≡ params.session_id)
      × (verify_token params.file_id params.token session ≡ true)
      × (lookup params.file_id session.files ≡ some meta)
unfolding admit_standard
admitted_checks params w u h = elim (Option-cases w.current_session) [
  | inl e ↦ absurd (ground arith)
  | inr (session, e) ↦ elim (Bool-cases (session.id == params.session_id)) [
    | inr other ↦ absurd (ground arith)
    | inl same ↦ elim (Bool-cases (verify_token params.file_id params.token session)) [
      | inr wrong ↦ absurd (ground arith)
      | inl right ↦ elim (Option-cases (lookup params.file_id session.files)) [
        | inl missing ↦ absurd (ground arith)
        | inr (meta, known) ↦ (session, meta, e, ground arith, right, known)
      ]
    ]
  ]
]

lifecycle_at-set_lifecycle :
    (a : ℕ) (lc : ReceiveLifecycle) (w : World) → lifecycle_at a (set_lifecycle a lc w) ≡ lc
unfolding set_lifecycle
lifecycle_at-set_lifecycle a lc w = ground (arith, lookup-insert a a lc w.lifecycles)

outcome_claims :
    (params : UploadParams) (w : World) (session : Session) (meta : FileMetadata) (u : Upload)
    (o : Option ReceiveSlot)
    → slot_of params.file_id (lifecycle_at session.receive_lifecycle w) ≡ o
    → (outcome params w session meta o).1 ≡ standard u
    → (at_phase ready o ≡ true)
      × IsClaimed params w (outcome params w session meta o).0 session meta u
outcome_claims params w session meta u none e h = absurd (ground arith)
outcome_claims params w session meta u (some slot) e h =
    elim (Bool-cases (phase_eq slot.phase ready)) [
      | inr busy ↦ absurd (ground arith)
      | inl free ↦
          rw (free, outcome)
            (
              refl,
              record {
                session_id_of = ground arith;
                file_id_of = ground arith;
                size_of = ground arith;
                sha_of = ground arith;
                lease_of = ground arith;
                slot_taken = rw lifecycle_at-set_lifecycle (
                    ground (
                      arith,
                      slot_of-set_phase params.file_id params.file_id slot receiving
                          (lifecycle_at session.receive_lifecycle w),
                    ));
                same_state = unfold set_lifecycle in refl;
              },
            )
    ]

-- An upload that passes meets every check (the session is current, the ids agree, the token is the
-- one issued for the file, the file is offered, its slot is ready), and it claims the slot.
pub admit_standard_claims :
    (params : UploadParams) (w : World) (u : Upload)
    → (admit_standard params w).1 ≡ standard u
    → (session : Session) × (meta : FileMetadata) × MayUpload params w session meta
      × IsClaimed params w (admit_standard params w).0 session meta u
admit_standard_claims params w u h =
    let (session, meta, e, same, right, known) = admitted_checks params w u h in
    let eq = admit_checked params w session meta e same right known in
    let slot = slot_of params.file_id (lifecycle_at session.receive_lifecycle w) in
    let (free, claims) = outcome_claims params w session meta u slot refl (rw eq at h) in
    (
      session,
      meta,
      record {
        is_current = e;
        same_id = same;
        token_shown = verify_token_lem params.file_id params.token session right;
        file_known = known;
        slot_ready = free;
      },
      rw eq claims,
    )

verify_token-true :
    (f : FileId) (token : Token) (s : Session)
    → lookup f s.tokens ≡ some token
    → verify_token f token s ≡ true
unfolding verify_token
verify_token-true f token s h = ground arith

admit_ready :
    (params : UploadParams) (w : World) (session : Session) (meta : FileMetadata)
    (slot : ReceiveSlot)
    → MayUpload params w session meta
    → slot_of params.file_id (lifecycle_at session.receive_lifecycle w) ≡ some slot
    → admit_standard params w ≡ (
      set_lifecycle session.receive_lifecycle
          (set_phase params.file_id slot receiving (lifecycle_at session.receive_lifecycle w))
          w,
      standard (claimed params session meta),
    )
admit_ready params w session meta slot may e = ground (
  arith,
  admit_checked params w session meta may.is_current may.same_id
      (verify_token-true params.file_id params.token session may.token_shown) may.file_known,
)

admit_receiving :
    (params : UploadParams) (w : World) (session : Session) (meta : FileMetadata)
    (slot : ReceiveSlot)
    → MayUpload params w session meta
    → (lc : ReceiveLifecycle) → slot_of params.file_id lc ≡ some (record slot { phase = receiving })
    → let w' = set_lifecycle session.receive_lifecycle lc w in
      admit_standard params w' ≡ (w', refused conflict)
admit_receiving params w session meta slot may lc e =
    let w' : World = set_lifecycle session.receive_lifecycle lc w in
    let same : w'.current_session ≡ some session = unfold set_lifecycle in may.is_current in
    ground (
      arith,
      admit_checked params w' session meta same may.same_id
          (verify_token-true params.file_id params.token session may.token_shown) may.file_known,
      lifecycle_at-set_lifecycle session.receive_lifecycle lc w,
    )

-- A request that meets every check is admitted. The same request again, while the slot is claimed,
-- is answered with a conflict and changes nothing.
pub admit_standard_once :
    (params : UploadParams) (w : World) (session : Session) (meta : FileMetadata)
    → MayUpload params w session meta
    → ((admit_standard params w).1 ≡ standard (claimed params session meta))
      × (admit_standard params (admit_standard params w).0
          ≡ ((admit_standard params w).0, refused conflict))
admit_standard_once params w session meta may =
    elim (Option-cases (slot_of params.file_id (lifecycle_at session.receive_lifecycle w))) [
      | inl e ↦ absurd (ground (arith, may.slot_ready))
      | inr (slot, e) ↦
          let lc : ReceiveLifecycle =
            set_phase params.file_id slot receiving (lifecycle_at session.receive_lifecycle w) in
          rw (admit_ready params w session meta slot may e) (
            refl,
            admit_receiving params w session meta slot may lc (
                ground (
                  arith,
                  slot_of-set_phase params.file_id params.file_id slot receiving
                      (lifecycle_at session.receive_lifecycle w),
                )),
          )
    ]
