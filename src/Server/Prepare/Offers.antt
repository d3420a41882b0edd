-- ===== src/Server/Prepare/Offers.antt =====
-- server/handlers.rs: what the answer to an offer does.
use localsend_rs.Base.{
  ℕ, ◌≡◌, ◌⊎◌, ◌∙◌, refl, inl, inr, Bool, true, false, Option, none, some, [], ◌∷◌, arith,
  Bool-cases, Option-cases, ap, subst, Map, lookup, retain, contains, contains_key, if◌then◌else◌,
}
use localsend_rs.Protocol.{
  FileId, SessionId, IpAddr, Instant, PrepareUploadRequest, PrepareUploadResponse, is_empty,
}
use localsend_rs.Pin
use localsend_rs.Session.{Session, collect}
use localsend_rs.Server.Events.{TransferDecision, accept, accept_files, decline, refuse}
use localsend_rs.Server.Http.{
  Response, StatusCode, conflict, status, prepared, unauthorized, too_many_requests, no_content,
}
use localsend_rs.Server.State.{World, set_current, set_current_from, set_awaiting}
use localsend_rs.Server.Prepare.{
  Fresh, PrepareCall, settle, unwind, accepted_ids, accepted_files, install_session,
  release_reservation, check_pin, reserve, ask, await_decision, handle_standard_prepare_upload,
  clear_awaiting, decide, resume,
}

pub lookup-retain :
    {V : Type 0} (p : ℕ → Bool) (k : ℕ) (m : Map V)
    → lookup k (retain (λ (j, _). p j) m) ≡ (if p k then lookup k m else none)
unfolding lookup
lookup-retain p k [] = ground arith
lookup-retain p k ((j, v) ∷ m) = ground (arith, lookup-retain p k m)

pub lookup-collect :
    {V W : Type 0} (f : FileId → W) (k : FileId) (m : Map V)
    → lookup k (collect f m) ≡ (if contains_key k m then some (f k) else none)
unfolding lookup collect
lookup-collect f k [] = refl
lookup-collect f k ((j, v) ∷ m) = ground (arith, lookup-collect f k m)

release_cleared :
    (reserved : SessionId) (w : World)
    → w.current_session ≡ none
    → (release_reservation reserved w).current_session ≡ none
unfolding release_reservation set_awaiting set_current set_current_from
release_cleared reserved w e = ground arith

settle-declined :
    (decision : TransferDecision) (fresh : Fresh) (now : Instant) (request : PrepareUploadRequest)
    (w : World)
    → is_empty (accepted_ids decision request) ≡ true
    → (settle decision fresh now request w).0 ≡ unwind w
unfolding settle
settle-declined (refuse _) fresh now request w e = refl
settle-declined accept fresh now request w e = ground arith
settle-declined (accept_files ids) fresh now request w e = ground arith
settle-declined decline fresh now request w e = ground arith

unwind-current : (w : World) → (unwind w).current_session ≡ none
unfolding unwind set_current
unwind-current w = refl

await_decision-manual :
    (call : PrepareCall) (request : PrepareUploadRequest) (w : World)
    → w.auto_accept ≡ false
    → (let waited = call.meanwhile (ask call request w) in
        let withdrawn = contains waited.withdrawn call.placeholder.address in
        (await_decision call request w).0
        ≡ release_reservation call.placeholder.session_id (
            (settle
              (decide false call.sent withdrawn call.answer)
              call.real
              call.decided
              request
              (call.before_settling (clear_awaiting call.placeholder.session_id waited))).0))
unfolding await_decision resume
await_decision-manual call request w manual = ap (λ auto. (resume auto call request w).0) manual

-- Without automatic acceptance, an offer of which no file is accepted leaves no session current when
-- its request unwinds, whatever session other requests installed while it waited.
pub declined_clears :
    (call : PrepareCall) (request : PrepareUploadRequest) (w : World)
    → w.auto_accept ≡ false
    → is_empty (
        accepted_ids
          (decide false call.sent
            (contains (call.meanwhile (ask call request w)).withdrawn call.placeholder.address)
            call.answer)
          request)
      ≡ true
    → (await_decision call request w).0.current_session ≡ none
declined_clears call request w manual empty =
    let waited = call.meanwhile (ask call request w) in
    let withdrawn = contains waited.withdrawn call.placeholder.address in
    let here = call.before_settling (clear_awaiting call.placeholder.session_id waited) in
    let unwound =
      settle-declined (decide false call.sent withdrawn call.answer) call.real call.decided request
        here empty in
    ap (λ v. v.current_session) (await_decision-manual call request w manual)
    ∙ release_cleared call.placeholder.session_id _
        (ap (λ v. v.current_session) unwound ∙ unwind-current here)

-- What a session that answers an offer is to the answer.
abbrev Matches : Session → PrepareUploadResponse → Type 0
Matches session r = (session.id ≡ r.session_id) × (session.tokens ≡ r.files)

pub settle-prepared :
    (decision : TransferDecision) (fresh : Fresh) (now : Instant) (request : PrepareUploadRequest)
    (w : World) (r : PrepareUploadResponse)
    → (settle decision fresh now request w).1 ≡ prepared r
    → (let (w', session) =
          install_session fresh now request.info.alias
            (accepted_files (accepted_ids decision request) request)
            w in
        settle decision fresh now request w
        ≡ (w', prepared (record { session_id = session.id; files = session.tokens })))
unfolding settle
settle-prepared (refuse _) fresh now request w r e = absurd (ground arith)
settle-prepared accept fresh now request w r e = ground arith
settle-prepared (accept_files ids) fresh now request w r e = ground arith
settle-prepared decline fresh now request w r e = ground arith

-- The answers of the PIN gate.
abbrev pub PinAnswer : Response → Type 0
PinAnswer r = (r ≡ status unauthorized) ⊎ (r ≡ status too_many_requests)

settle-not_pin :
    (decision : TransferDecision) (fresh : Fresh) (now : Instant) (request : PrepareUploadRequest)
    (w : World)
    → PinAnswer (settle decision fresh now request w).1
    → ⊥
unfolding settle
settle-not_pin (refuse _) fresh now request w e = ground arith
settle-not_pin accept fresh now request w e = ground arith
settle-not_pin (accept_files ids) fresh now request w e = ground arith
settle-not_pin decline fresh now request w e = ground arith

reserve-not_pin :
    (fresh : Fresh) (peer : IpAddr) (now : Instant) (request : PrepareUploadRequest) (w : World)
    (code : StatusCode)
    → (reserve fresh peer now request w).1 ≡ some code
    → code ≡ conflict
unfolding reserve
reserve-not_pin fresh peer now request w code e = ground arith

await_decision-not_pin :
    (call : PrepareCall) (request : PrepareUploadRequest) (w : World)
    → PinAnswer (await_decision call request w).1
    → ⊥
unfolding await_decision resume
await_decision-not_pin call request w e =
    let waited = if w.auto_accept then w else call.meanwhile (ask call request w) in
    settle-not_pin
      (decide w.auto_accept call.sent (contains waited.withdrawn call.placeholder.address)
        call.answer)
      call.real call.decided request
      (call.before_settling (clear_awaiting call.placeholder.session_id waited)) e

-- The PIN gate's and the reservation's part of a request.
abbrev pub gated : PrepareCall → World → World × Option StatusCode
gated call w = check_pin call.pin call.peer call.arrived w

abbrev pub reserved_by : PrepareCall → PrepareUploadRequest → World → World × Option StatusCode
reserved_by call request w =
    reserve call.placeholder call.peer call.arrived request (gated call w).0

pub handle-refused :
    (call : PrepareCall) (request : PrepareUploadRequest) (w : World) (code : StatusCode)
    → (gated call w).1 ≡ some code
    → handle_standard_prepare_upload call request w ≡ ((gated call w).0, status code)
unfolding handle_standard_prepare_upload
handle-refused call request w code e = ground arith

-- A request that passes the PIN gate ends at once, or it waits for a decision.
pub handle-passed :
    (call : PrepareCall) (request : PrepareUploadRequest) (w : World)
    → (gated call w).1 ≡ none
    → ((handle_standard_prepare_upload call request w).1 ≡ status no_content)
      ⊎ ((handle_standard_prepare_upload call request w).1 ≡ status conflict)
      ⊎ (((reserved_by call request w).1 ≡ none)
          × (handle_standard_prepare_upload call request w
              ≡ await_decision call request (reserved_by call request w).0))
unfolding handle_standard_prepare_upload
handle-passed call request w e = elim (Bool-cases (is_empty request.files)) [
  | inl nothing ↦ inl (ground arith)
  | inr some_files ↦ elim (Option-cases (reserved_by call request w).1) [
    | inr (code, refused) ↦
        let is_conflict =
          reserve-not_pin call.placeholder call.peer call.arrived request (gated call w).0 code
            refused in
        inr (inl (ground arith))
    | inl reserved ↦ inr (inr (reserved, ground arith))
  ]
]

-- An answer of the PIN gate (401 or 429) leaves everything but the gate as it was.
pub pin_refusal_keeps :
    (call : PrepareCall) (request : PrepareUploadRequest) (w : World)
    → PinAnswer (handle_standard_prepare_upload call request w).1
    → (handle_standard_prepare_upload call request w).0 ≡ record w {
      state = record (w.state) {
        pin_gate = (Pin.check call.pin call.peer call.arrived w.pin_gate).0;
      };
    }
pin_refusal_keeps call request w e = elim (Option-cases (gated call w).1) [
  | inr (code, refused) ↦
      unfold check_pin in ap (λ r. r.0) (handle-refused call request w code refused)
  | inl passed ↦ elim (handle-passed call request w passed) [
    | inl nothing ↦ absurd (ground arith)
    | inr (inl conflicting) ↦ absurd (ground arith)
    | inr (inr (reserved, run)) ↦ absurd (
        await_decision-not_pin call request (reserved_by call request w).0
          (subst (λ v. PinAnswer v.1) run e))
  ]
]
