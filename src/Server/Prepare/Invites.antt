-- ===== src/Server/Prepare/Invites.antt =====
-- server/handlers.rs: from the answer to an offer to the uploads that it invites.
use localsend_rs.Base.{
  ℕ, ◌≡◌, ◌≢◌, ◌∙◌, refl, sym, ap, subst, inl, inr, some, arith, Option-cases, Map, List, lookup,
  lookup-insert, contains,
}
use localsend_rs.Protocol.{
  Text, FileId, Token, Instant, FileMetadata, PrepareUploadRequest, PrepareUploadResponse,
}
use localsend_rs.Session
use localsend_rs.Session.{Session, ReceiveLifecycle, new_slot, collect}
use localsend_rs.Server.Events.{TransferDecision}
use localsend_rs.Server.Http.{prepared}
use localsend_rs.Server.State.{
  World, lifecycle_at, set_lifecycle, cancel_current, cancel_session, set_current,
}
use localsend_rs.Server.Prepare.{
  Fresh, install_session, new_session, accepted_files, accepted_ids, settle,
}
use localsend_rs.Server.Prepare.Offers.{lookup-collect, lookup-retain, settle-prepared}
use localsend_rs.Server.Prepare.Accepted.{prepared_inj}
use localsend_rs.Server.Upload.{standard, admit_standard}
use localsend_rs.Server.Upload.Claims.{MayUpload, claimed, admit_standard_once}

cancel_current-elsewhere :
    (address : ℕ) (w : World)
    → ((s : Session) → w.current_session ≡ some s → s.receive_lifecycle ≢ address)
    → lookup address (cancel_current w).lifecycles ≡ lookup address w.lifecycles
unfolding cancel_current cancel_session set_lifecycle
cancel_current-elsewhere address w unused = elim (Option-cases w.current_session) [
  | inl e ↦ ground (arith, e)
  | inr (s, e) ↦ ground (
    arith,
    e,
    unused s e,
    lookup-insert s.receive_lifecycle address
        (Session.try_cancel_receives (lifecycle_at s.receive_lifecycle w)).0 w.lifecycles,
  )
]

install_session-MayUpload :
    (fresh : Fresh) (now : Instant) (alias : Text) (files : Map FileMetadata) (w : World)
    (f : FileId) (meta : FileMetadata)
    → ((s : Session) → w.current_session ≡ some s → s.receive_lifecycle ≢ fresh.address)
    → lookup f files ≡ some meta
    → MayUpload
        (record { session_id = fresh.session_id; file_id = f; token = fresh.draw f })
        (install_session fresh now alias files w).0
        (install_session fresh now alias files w).1
        meta
unfolding install_session new_session set_current Session.new
install_session-MayUpload fresh now alias files w f meta unused listed = record {
  is_current = refl;
  same_id = refl;
  token_shown = ground (arith, lookup-collect fresh.draw f files, listed);
  file_known = listed;
  slot_ready =
      let slots = collect (λ _. new_slot) files in
      let held =
        cancel_current-elsewhere fresh.address (new_session fresh now alias files w).0 unused in
      let lc : ReceiveLifecycle = record { slots = slots } in
      let here : lookup fresh.address
            (cancel_current (new_session fresh now alias files w).0).lifecycles
          ≡ some lc =
        held ∙ ground (arith, lookup-insert fresh.address fresh.address lc w.lifecycles) in
      ground (arith, here, lookup-collect (λ _. new_slot) f files, listed);
}

-- What an answer promises for one file: the offered metadata of it, and the admission of an upload.
abbrev pub Invites : PrepareUploadRequest → PrepareUploadResponse → FileId → Token → World → Type 0
Invites request r f token w =
    (meta : FileMetadata) × ((lookup f request.files ≡ some meta)
      × ((session : Session) × ((admit_standard
              (record { session_id = r.session_id; file_id = f; token = token }) w).1
            ≡ standard (
                claimed (record { session_id = r.session_id; file_id = f; token = token }) session
                  meta))))

install_session-Invites :
    (ids : List FileId) (fresh : Fresh) (now : Instant) (request : PrepareUploadRequest) (w : World)
    (f : FileId) (token : Token)
    → ((s : Session) → w.current_session ≡ some s → s.receive_lifecycle ≢ fresh.address)
    → (let (w', session) =
          install_session fresh now request.info.alias (accepted_files ids request) w in
        lookup f session.tokens ≡ some token
        → Invites request (record { session_id = session.id; files = session.tokens }) f token w')
unfolding install_session new_session Session.new
install_session-Invites ids fresh now request w f token unused listed =
    let files = accepted_files ids request in
    elim (Option-cases (lookup f files)) [
      | inl e ↦ absurd (ground (arith, listed, lookup-collect fresh.draw f files))
      | inr (meta, e) ↦
          let may =
            install_session-MayUpload fresh now request.info.alias files w f meta unused e in
          let drawn : fresh.draw f ≡ token =
            ground (arith, listed, lookup-collect fresh.draw f files) in
          let session = (install_session fresh now request.info.alias files w).1 in
          let w' = (install_session fresh now request.info.alias files w).0 in
          let offered : lookup f request.files ≡ some meta =
            ground (arith, e, lookup-retain (contains ids) f request.files) in
          (
            meta,
            (
              offered,
              (
                session,
                subst
                    (λ t.
                      (admit_standard
                        (record { session_id = fresh.session_id; file_id = f; token = t }) w').1
                      ≡ standard (
                          claimed (record { session_id = fresh.session_id; file_id = f; token = t })
                            session meta))
                    drawn
                    (admit_standard_once
                      (record { session_id = fresh.session_id; file_id = f; token = fresh.draw f })
                      w' session meta may).0,
              ),
            ),
          )
    ]

-- The answer to an offer invites its uploads: where the new session's cells are not those of the
-- session that is current, a request with a listed file and its token, while nothing else has
-- happened, is admitted with the metadata that was offered for that file.
pub settle-Invites :
    (decision : TransferDecision) (fresh : Fresh) (now : Instant) (request : PrepareUploadRequest)
    (w : World) (r : PrepareUploadResponse) (f : FileId) (token : Token)
    → (settle decision fresh now request w).1 ≡ prepared r
    → ((s : Session) → w.current_session ≡ some s → s.receive_lifecycle ≢ fresh.address)
    → lookup f r.files ≡ some token
    → Invites request r f token (settle decision fresh now request w).0
settle-Invites decision fresh now request w r f token e unused =
    let ids = accepted_ids decision request in
    let run = settle-prepared decision fresh now request w r e in
    let made = install_session fresh now request.info.alias (accepted_files ids request) w in
    let answer : PrepareUploadResponse = record { session_id = made.1.id; files = made.1.tokens } in
    let same : answer ≡ r = prepared_inj answer r (sym (ap (λ v. v.1) run) ∙ e) in
    subst
      (λ v.
        lookup f v.files ≡ some token
        → Invites request v f token (settle decision fresh now request w).0)
      same
      (subst (λ w'. lookup f made.1.tokens ≡ some token → Invites request answer f token w')
        (sym (ap (λ v. v.0) run)) (install_session-Invites ids fresh now request w f token unused))
