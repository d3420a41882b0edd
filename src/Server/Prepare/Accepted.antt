-- ===== src/Server/Prepare/Accepted.antt =====
-- server/handlers.rs: what the answer to an accepted offer promises the sender.
use localsend_rs.Base.{
  ℕ, ◌≡◌, ◌≢◌, ◌↔◌, ◌∙◌, refl, sym, inl, inr, Bool, true, ◌&&◌, some, List, arith, Option-cases, ap,
  subst, lookup, contains, contains_key, if◌then◌else◌,
}
use localsend_rs.Protocol.{FileId, SessionId, Token, PrepareUploadRequest, PrepareUploadResponse}
use localsend_rs.Session
use localsend_rs.Session.{Session, verify_token}
use localsend_rs.Server.Events.{TransferDecision}
use localsend_rs.Server.Http.{prepared}
use localsend_rs.Server.State.{World, set_current}
use localsend_rs.Server.Prepare.{
  Fresh, PrepareCall, settle, accepted_ids, accepted_files, install_session, new_session,
  release_reservation, decide, clear_awaiting, ask, await_decision, resume,
  handle_standard_prepare_upload,
}
use localsend_rs.Server.Prepare.Reservation.{release_own}
use localsend_rs.Server.Prepare.Offers.{
  lookup-collect, lookup-retain, gated, handle-refused, handle-passed, reserved_by, settle-prepared,
}

pub prepared_inj : (r r' : PrepareUploadResponse) → prepared r ≡ prepared r' → r ≡ r'
prepared_inj r r' e = cc

-- The state takes uploads on the answer: its session is current, it is the one that is named, and
-- it takes exactly the tokens that are listed.
abbrev pub Honours : PrepareUploadResponse → World → Type 0
Honours r w =
    (session : Session) × (w.current_session ≡ some session)
    × (session.id ≡ r.session_id)
    × ((f : FileId) (token : Token)
        → (verify_token f token session ≡ true) ↔ (lookup f r.files ≡ some token))

-- The answer that lists the tokens of a session.
abbrev answer_of : Session → PrepareUploadResponse
answer_of session = record { session_id = session.id; files = session.tokens }

abbrev installed : Fresh → ℕ → PrepareUploadRequest → List FileId → World → World × Session
installed fresh now request ids w =
    install_session fresh now request.info.alias (accepted_files ids request) w

install_session-Honours :
    (fresh : Fresh) (now : ℕ) (request : PrepareUploadRequest) (ids : List FileId) (w : World)
    → ((installed fresh now request ids w).1.id ≡ fresh.session_id)
      × Honours
          (answer_of (installed fresh now request ids w).1)
          (installed fresh now request ids w).0
unfolding install_session new_session set_current Session.new verify_token
install_session-Honours fresh now request ids w =
    (refl, ((installed fresh now request ids w).1, refl, refl, λ f token. ground arith))

settle-Honours :
    (decision : TransferDecision) (fresh : Fresh) (now : ℕ) (request : PrepareUploadRequest)
    (w : World) (r : PrepareUploadResponse)
    → (settle decision fresh now request w).1 ≡ prepared r
    → (r.session_id ≡ fresh.session_id) × Honours r (settle decision fresh now request w).0
settle-Honours decision fresh now request w r e =
    let run = settle-prepared decision fresh now request w r e in
    let ids = accepted_ids decision request in
    let same : answer_of (installed fresh now request ids w).1 ≡ r =
      prepared_inj _ r (sym (ap (λ v. v.1) run) ∙ e) in
    subst
      (λ v. (v.session_id ≡ fresh.session_id) × Honours v (settle decision fresh now request w).0)
      same
      (subst
        (λ v.
          ((installed fresh now request ids w).1.id ≡ fresh.session_id)
          × Honours (answer_of (installed fresh now request ids w).1) v)
        (sym (ap (λ v. v.0) run)) (install_session-Honours fresh now request ids w))

release-Honours :
    (reserved : SessionId) (r : PrepareUploadResponse) (w : World)
    → r.session_id ≢ reserved
    → Honours r w
    → Honours r (release_reservation reserved w)
release-Honours reserved r w other (session, current, same, takes) = elim (release_own reserved w) [
  | inl kept ↦ (session, kept ∙ current, same, takes)
  | inr (s, e, own, gone) ↦ absurd (other (ground arith))
]

resume-Honours :
    (auto : Bool) (call : PrepareCall) (request : PrepareUploadRequest) (w : World)
    (r : PrepareUploadResponse)
    → call.real.session_id ≢ call.placeholder.session_id
    → (resume auto call request w).1 ≡ prepared r
    → Honours r (resume auto call request w).0
unfolding resume
resume-Honours auto call request w r distinct e =
    let waited = if auto then w else call.meanwhile (ask call request w) in
    let decision =
      decide auto call.sent (contains waited.withdrawn call.placeholder.address) call.answer in
    let here = call.before_settling (clear_awaiting call.placeholder.session_id waited) in
    let (id, honours) = settle-Honours decision call.real call.decided request here r e in
    release-Honours call.placeholder.session_id r
      (settle decision call.real call.decided request here).0 (λ same. distinct (sym id ∙ same))
      honours

-- Where the two random identifiers of a request differ, an answer with tokens leaves the receiver
-- in a state that honours it: its current session is the answer's, and it takes an upload's token
-- for a file exactly if the answer lists it for that file. This holds for every decision of the
-- consumer and whatever other requests do while this one waits.
pub prepared_honoured :
    (call : PrepareCall) (request : PrepareUploadRequest) (w : World) (r : PrepareUploadResponse)
    → call.real.session_id ≢ call.placeholder.session_id
    → (handle_standard_prepare_upload call request w).1 ≡ prepared r
    → Honours r (handle_standard_prepare_upload call request w).0
unfolding await_decision
prepared_honoured call request w r distinct e = elim (Option-cases (gated call w).1) [
  | inr (code, refused) ↦
      let run = handle-refused call request w code refused in absurd (ground arith)
  | inl passed ↦ elim (handle-passed call request w passed) [
    | inl nothing ↦ absurd (ground arith)
    | inr (inl conflicting) ↦ absurd (ground arith)
    | inr (inr (reserved, run)) ↦
        let w' = (reserved_by call request w).0 in
        subst (λ v. Honours r v.0) (sym run)
          (resume-Honours w'.auto_accept call request w' r distinct
            (subst (λ v. v.1 ≡ prepared r) run e))
  ]
]

installed-tokens :
    (fresh : Fresh) (now : ℕ) (request : PrepareUploadRequest) (ids : List FileId) (w : World)
    (f : FileId)
    → contains_key f (installed fresh now request ids w).1.tokens
      ≡ contains ids f && contains_key f request.files
unfolding install_session new_session Session.new
installed-tokens fresh now request ids w f = ground (
  arith,
  lookup-collect fresh.draw f (accepted_files ids request),
  lookup-retain (contains ids) f request.files,
)

-- An answer lists a token for a file exactly if the file was offered and the decision accepts it.
pub settle_lists :
    (decision : TransferDecision) (fresh : Fresh) (now : ℕ) (request : PrepareUploadRequest)
    (w : World) (r : PrepareUploadResponse) (f : FileId)
    → (settle decision fresh now request w).1 ≡ prepared r
    → contains_key f r.files
      ≡ contains (accepted_ids decision request) f && contains_key f request.files
settle_lists decision fresh now request w r f e =
    let run = settle-prepared decision fresh now request w r e in
    let ids = accepted_ids decision request in
    let same : answer_of (installed fresh now request ids w).1 ≡ r =
      prepared_inj _ r (sym (ap (λ v. v.1) run) ∙ e) in
    subst (λ v. contains_key f v.files ≡ contains ids f && contains_key f request.files) same
      (installed-tokens fresh now request ids w f)
