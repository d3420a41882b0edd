-- ===== src/Server/State.antt =====
-- server/state.rs: the receiver's state, with the cells that it shares with running requests.
use localsend_rs.Base.{ℕ, ◌-◌, ◌/◌, Bool, Option, none, some, List, [], leb, Map, lookup, insert}
use localsend_rs.Protocol.{
  Text, FileId, SessionId, Token, IpAddr, Instant, Duration, DeviceInfo, FileMetadata,
}
use localsend_rs.Session.{Session, ReceiveLifecycle, try_cancel_receives}
use localsend_rs.Pin.{PinGate}
use localsend_rs.Server.Events.{ServerEvent, Sender, try_send, enqueue}

-- `withdraw` is the address of the token that wakes the waiting request.
pub record ConsentReservation : Type 0 where
  pub session_id : SessionId
  pub from : IpAddr
  pub withdraw : ℕ

pub record CrossCopyAuthorizedPrepareMetadata : Type 0 where
  pub sender : DeviceInfo
  pub file_id : FileId
  pub file : FileMetadata

-- `owner` names the host's upload owner, an object of code outside the repository.
pub record CrossCopyAuthorizedSession : Type 0 where
  pub session_id : SessionId
  pub file_id : FileId
  pub upload_token : Token
  pub metadata : CrossCopyAuthorizedPrepareMetadata
  pub owner : ℕ
  pub created_at : Instant

-- `cancellation` names the owner whose token it is.
pub record CrossCopyAuthorizedActiveUpload : Type 0 where
  pub session_id : SessionId
  pub cancellation : ℕ

unfoldable pub new_protected :
    SessionId
    → Token
    → Instant
    → CrossCopyAuthorizedPrepareMetadata
    → ℕ
    → CrossCopyAuthorizedSession
new_protected id token now metadata owner = record {
  session_id = id;
  file_id = metadata.file_id;
  upload_token = token;
  metadata = metadata;
  owner = owner;
  created_at = now;
}

-- `elapsed().as_secs() >= seconds`.
unfoldable pub is_timed_out : Instant → ℕ → CrossCopyAuthorizedSession → Bool
is_timed_out now seconds s = leb seconds ((now - s.created_at) / 1000000000)

pub record ServerState : Type 0 where
  pub device : DeviceInfo
  pub current_session : Option Session
  pub current_session_from : Option IpAddr
  pub awaiting_consent : Option ConsentReservation
  pub save_dir : List Text
  pub events_tx : Sender
  pub auto_accept : Bool
  pub accept_timeout : Duration
  pub session_timeout : Duration
  pub receive_rate_limit_bytes_per_second : Option ℕ
  pub pin_gate : PinGate
  pub crosscopy_authorized_upload_gate : Bool
  pub crosscopy_authorized_session : Option CrossCopyAuthorizedSession
  pub crosscopy_authorized_active_upload : Option CrossCopyAuthorizedActiveUpload
  pub crosscopy_authorized_stopping : Bool

-- What was done with a destination that the sink created.
pub data SinkCall : Type 0 where
  committed aborted : ℕ → SinkCall

-- The state with what lies behind its shared pointers: the lifecycles and progress counters by
-- address, the withdrawal tokens that were cancelled, the calls of `owner.cancel()` and of an
-- owner's token, and what was done with the destinations of the sink.
pub record World : Type 0 where
  pub state : ServerState
  pub open state use *
  pub lifecycles : Map ReceiveLifecycle
  pub counters : Map ℕ
  pub withdrawn : List ℕ
  pub cancelled_owners : List ℕ
  pub cancelled_tokens : List ℕ
  pub sink_calls : List SinkCall

unfoldable pub send : ServerEvent → World → World
unfolding try_send
send event w = record w { state = record (w.state) { events_tx = try_send event w.events_tx } }

-- `events_tx.send(event).await`: it waits until the consumer has made room, and a closed channel
-- drops the event.
unfoldable pub deliver : ServerEvent → World → World
unfolding enqueue
deliver event w = record w { state = record (w.state) { events_tx = enqueue event w.events_tx } }

-- The lifecycle at an address, which every session in use has.
abbrev pub lifecycle_at : ℕ → World → ReceiveLifecycle
lifecycle_at address w = elim (lookup address w.lifecycles) [
  | none ↦ record { slots = [] }
  | some lc ↦ lc
]

unfoldable pub set_lifecycle : ℕ → ReceiveLifecycle → World → World
set_lifecycle address lc w = record w { lifecycles = insert address lc w.lifecycles }

-- `session.try_cancel_receives()`, through the session's shared lifecycle.
unfoldable pub cancel_session : Session → World → World × Bool
unfolding set_lifecycle
cancel_session session w =
    let (lc, done) = try_cancel_receives (lifecycle_at session.receive_lifecycle w) in
    (set_lifecycle session.receive_lifecycle lc w, done)

-- `if let Some(session) = &state.current_session { let _ = session.try_cancel_receives(); }`.
unfoldable pub cancel_current : World → World
unfolding cancel_session
cancel_current w = elim w.current_session [ none ↦ w | some session ↦ (cancel_session session w).0 ]

unfoldable pub set_current : Option Session → World → World
set_current session w = record w { state = record (w.state) { current_session = session } }

unfoldable pub set_current_from : Option IpAddr → World → World
set_current_from from w = record w { state = record (w.state) { current_session_from = from } }

unfoldable pub set_awaiting : Option ConsentReservation → World → World
set_awaiting r w = record w { state = record (w.state) { awaiting_consent = r } }
