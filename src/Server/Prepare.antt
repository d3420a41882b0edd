-- ===== src/Server/Prepare.antt =====
-- server/handlers.rs: `handle_standard_prepare_upload`, one definition for each stretch that it runs
-- without giving up the lock or waiting. Other requests may run between two of them.
pub mod Reservation
pub mod Invites
pub mod Offers
pub mod Accepted
use localsend_rs.Base.{
  ℕ, ◌*◌, Bool, ◌&&◌, ◌||◌, not, Option, none, some, List, [], ◌∷◌, ◌++◌, ◌==◌, ltb, if◌then◌else◌,
  Map, insert, keys, values, contains, contains_key, retain, is_some_and,
}
use localsend_rs.Protocol.{
  Text, FileId, SessionId, Token, IpAddr, Instant, FileMetadata, PrepareUploadRequest, is_empty,
  DeviceInfo,
}
use localsend_rs.Pin
use localsend_rs.Session
use localsend_rs.Session.{Session}
use localsend_rs.Server.Events.{
  TransferDecision, accept, accept_files, decline, refuse, text_received, session_done,
  peer_registered, transfer_request,
}
use localsend_rs.Server.Http.{
  StatusCode, Response, status, prepared, ok, no_content, bad_request, unauthorized, forbidden,
  conflict, too_many_requests, device_json,
}
use localsend_rs.Server.State.{
  World, send, set_lifecycle, cancel_session, cancel_current, set_current, set_current_from,
  set_awaiting,
}

pub handle_info : World → Response
handle_info w = device_json w.device

pub handle_register : IpAddr → DeviceInfo → World → World × Response
handle_register peer remote_device w =
    (send (peer_registered (record remote_device { ip = some peer })) w, device_json w.device)

-- The PIN gate: `none` lets the request go on.
pub check_pin : Option Text → IpAddr → Instant → World → World × Option StatusCode
check_pin pin peer now w =
    let (gate, verdict) = Pin.check pin peer now w.pin_gate in
    (
      record w { state = record (w.state) { pin_gate = gate } },
      elim verdict [
        | Pin.ok _ ↦ none
        | Pin.unauthorized ↦ some unauthorized
        | Pin.locked_out ↦ some too_many_requests
      ],
    )

pub preview_text : FileMetadata → Option Text
preview_text file = elim file.preview [
  | none ↦ none
  | some text ↦ if not (is_empty text) && ltb file.size (1024 * 1024) then some text else none
]

-- A text message: exactly one file, small, with a preview that is not empty.
pub message_text : PrepareUploadRequest → Option Text
unfolding preview_text
message_text request = elim (values request.files) [
  | [] ↦ none
  | file ∷ rest ↦ if is_empty rest then preview_text file else none
]

-- What the environment gives a new session: its random identifier, the address of its shared cells,
-- and the random token that is drawn for each file.
pub record Fresh : Type 0 where
  pub session_id : SessionId
  pub address : ℕ
  pub draw : FileId → Token

-- `Session::new`, with its lifecycle and progress counter put into memory.
pub new_session : Fresh → Instant → Text → Map FileMetadata → World → World × Session
unfolding set_lifecycle
new_session fresh now alias files w =
    let (session, lc) = Session.new fresh.session_id fresh.draw fresh.address now alias files in
    (
      record (set_lifecycle fresh.address lc w) { counters = insert fresh.address 0 w.counters },
      session,
    )

-- The reservation: a placeholder session over the offered files.
unfoldable pub install_placeholder : Fresh → IpAddr → Instant → PrepareUploadRequest → World → World
unfolding new_session set_awaiting set_current_from set_current
install_placeholder fresh peer now request w =
    let (w', placeholder) = new_session fresh now request.info.alias request.files w in
    set_current (some placeholder) (
      set_current_from (some peer) (
        set_awaiting
          (some (record { session_id = fresh.session_id; from = peer; withdraw = fresh.address }))
          w'))

-- The short lock that refuses a conflicting session or reserves this one.
unfoldable pub reserve :
    Fresh → IpAddr → Instant → PrepareUploadRequest → World → World × Option StatusCode
unfolding cancel_session set_current
reserve fresh peer now request w = elim w.current_session [
  | none ↦ (install_placeholder fresh peer now request w, none)
  | some session ↦
      if Session.is_timed_out now w.session_timeout session
      then (let (w', cancelled) = cancel_session session w in
          if cancelled
          then (install_placeholder fresh peer now request (set_current none w'), none)
          else (w', some conflict))
      else (w, some conflict)
]

-- How the wait for the consumer's answer ends.
pub data Answer : Type 0 where
  answered : TransferDecision → Answer
  dropped timed_out : Answer

-- The decision: `sent` says whether the event reached a consumer. The wait is biased: a withdrawal
-- that has happened comes before any answer.
unfoldable pub decide : Bool → Bool → Bool → Answer → TransferDecision
decide auto_accept sent withdrawn answer =
    if auto_accept
    then accept
    else if not sent
    then decline
    else if withdrawn
    then decline
    else (elim answer [ answered d ↦ d | dropped ↦ decline | timed_out ↦ decline ])

-- The answer arrived: the reservation no longer waits for one, if it is still this one.
pub clear_awaiting : SessionId → World → World
unfolding set_awaiting
clear_awaiting reserved w =
    if is_some_and w.awaiting_consent (λ r. r.session_id == reserved)
    then set_awaiting none w
    else w

-- The unwinding of a refused and of a declined offer.
pub unwind : World → World
unfolding cancel_current set_current
unwind w = set_current none (cancel_current w)

abbrev pub accepted_ids : TransferDecision → PrepareUploadRequest → List FileId
accepted_ids accept request = keys request.files
accepted_ids (accept_files ids) request = retain (λ id. contains_key id request.files) ids
accepted_ids decline request = []
accepted_ids (refuse _) request = []

abbrev pub accepted_files : List FileId → PrepareUploadRequest → Map FileMetadata
accepted_files ids request = retain (λ (id, _). contains ids id) request.files

-- The real session takes the place of whatever is current.
unfoldable pub install_session : Fresh → Instant → Text → Map FileMetadata → World → World × Session
unfolding new_session cancel_current set_current
install_session fresh now alias files w =
    let (w', session) = new_session fresh now alias files w in
    (set_current (some session) (cancel_current w'), session)

-- A message is handed to the consumer, and its session is over.
pub deliver_message : SessionId → Text → Text → World → World
unfolding send set_current
deliver_message session_id text alias w =
    set_current none (send (session_done session_id) (send (text_received session_id text alias) w))

-- From the decision to the response. `fresh` is for the real session.
unfoldable pub settle :
    TransferDecision → Fresh → Instant → PrepareUploadRequest → World → World × Response
unfolding unwind install_session deliver_message message_text
settle (refuse _) fresh now request w = (unwind w, status bad_request)
settle decision fresh now request w =
    let ids = accepted_ids decision request in
    if is_empty ids
    then (unwind w, status forbidden)
    else (let (w', session) =
          install_session fresh now request.info.alias (accepted_files ids request) w in
        elim (message_text request) [
          | none ↦ (w', prepared (record { session_id = session.id; files = session.tokens }))
          | some text ↦ (deliver_message session.id text request.info.alias w', status no_content)
        ])

-- `ReservationGuard::drop`: the release of a reservation that is still this request's.
pub release_reservation : SessionId → World → World
unfolding set_awaiting set_current set_current_from cancel_session
release_reservation reserved w =
    if not (is_some_and w.awaiting_consent (λ r. r.session_id == reserved))
    then w
    else (let w' = set_awaiting none w in
        elim w.current_session [
          | none ↦ w'
          | some session ↦
              if session.id == reserved
              then set_current_from none (set_current none ((cancel_session session w').0))
              else w'
        ])

-- What the environment brings to one request: the values of its two sessions, the PIN, the peer,
-- the times, whether a consumer takes the event, its answer, and what other requests do to the
-- state while this one waits.
pub record PrepareCall : Type 0 where
  pub placeholder : Fresh
  pub real : Fresh
  pub pin : Option Text
  pub peer : IpAddr
  pub arrived : Instant
  pub decided : Instant
  pub sent : Bool
  pub answer : Answer
  pub meanwhile : World → World
  pub before_settling : World → World

-- `events_tx.send(…).await` waits for room, so a consumer that is there gets the event.
pub ask : PrepareCall → PrepareUploadRequest → World → World
ask call request w = if w.auto_accept || not call.sent then w else record w {
  state = record (w.state) {
    events_tx = record (w.events_tx) {
      queue = w.events_tx.queue ++ transfer_request request.info request.files ∷ [];
    };
  };
}

-- From the answer on: decide, give up the wait, and after what other requests do then
-- (`before_settling`) settle and drop the guard. The guard's task finds nothing of its own by then.
pub resume : Bool → PrepareCall → PrepareUploadRequest → World → World × Response
unfolding ask decide clear_awaiting settle release_reservation
resume auto call request w =
    let waited = if auto then w else call.meanwhile (ask call request w) in
    let withdrawn = contains waited.withdrawn call.placeholder.address in
    let decision = decide auto call.sent withdrawn call.answer in
    let reserved = call.placeholder.session_id in
    let (w', response) =
      settle decision call.real call.decided request
        (call.before_settling (clear_awaiting reserved waited)) in
    (release_reservation reserved w', response)

-- `auto_accept` is read when the wait would begin.
pub await_decision : PrepareCall → PrepareUploadRequest → World → World × Response
unfolding resume
await_decision call request w = resume w.auto_accept call request w

-- A request whose client disconnects while it waits: no more of it runs than its guard.
pub abandon : PrepareCall → PrepareUploadRequest → World → World
unfolding ask release_reservation
abandon call request w =
    release_reservation call.placeholder.session_id (call.meanwhile (ask call request w))

unfoldable pub handle_standard_prepare_upload :
    PrepareCall → PrepareUploadRequest → World → World × Response
unfolding check_pin reserve await_decision
handle_standard_prepare_upload call request w =
    let (w1, refused) = check_pin call.pin call.peer call.arrived w in
    elim refused [
      | some code ↦ (w1, status code)
      | none ↦
          if is_empty request.files
          then (w1, status no_content)
          else (let (w2, conflicting) =
                reserve call.placeholder call.peer call.arrived request w1 in
              elim conflicting [
                | some code ↦ (w2, status code)
                | none ↦ await_decision call request w2
              ])
    ]
