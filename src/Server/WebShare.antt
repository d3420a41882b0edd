-- ===== src/Server/WebShare.antt =====
-- server/web_share.rs and the web share's methods of server/server.rs: a share's sessions, the
-- consent that each waits for, and its downloads. Each definition is one stretch under the lock.
pub mod Downloads
pub mod Consent
use localsend_rs.Base.{
  ℕ, Bool, true, false, ◌&&◌, not, Option, none, some, List, [], ◌∷◌, ◌==◌, if◌then◌else◌, Map,
  lookup, insert, remove, contains, length, is_some_and,
}
use localsend_rs.Protocol.{
  Text, FileId, SessionId, IpAddr, Instant, Duration, DeviceInfo, FileMetadata, is_empty,
}
use localsend_rs.Error.{Result, ok, err, invalid_state, bytes}
use localsend_rs.Pin
use localsend_rs.Pin.{PinGate}
use localsend_rs.Server.Events.{Sender, web_share_request, try_send, enqueue}
use localsend_rs.Server.Http.{StatusCode, unauthorized, forbidden, too_many_requests}

pub data WebShareSource : Type 0 where
  inline : Text → WebShareSource
  path : List Text → WebShareSource

pub record WebShareFile : Type 0 where
  pub metadata : FileMetadata
  pub source : WebShareSource

abbrev pub shared_metadata : FileId → Text → ℕ → Text → FileMetadata
shared_metadata id name size file_type = record {
  id = id;
  file_name = name;
  size = size;
  file_type = file_type;
  sha256 = none;
  preview = none;
  metadata = none;
}

-- `WebShareFile::inline` and `WebShareFile::path`. `mime` is the guess of another crate, `id` the
-- random identifier, and `on_disk` the size that the file system reports.
unfoldable pub inline_file : (Text → Text) → FileId → Text → Text → WebShareFile
inline_file mime id name contents = record {
  metadata = shared_metadata id name (length contents) (mime name);
  source = inline contents;
}

unfoldable pub path_file :
    (Text → Text) → FileId → List Text → Text → Result ℕ → Result WebShareFile
path_file mime id file name on_disk = elim on_disk [
  | err e ↦ err e
  | ok size ↦
      ok (record { metadata = shared_metadata id name size (mime name); source = path file })
]

-- `response_tx` is the sending half of the channel that the request waits on; its address is the
-- session's identifier.
pub record WebShareSession : Type 0 where
  pub ip : IpAddr
  pub approved : Bool
  pub response_tx : Option SessionId
  pub downloaded_files : List FileId

pub record WebShareState : Type 0 where
  pub files : Map WebShareFile
  pub sessions : Map WebShareSession
  pub auto_accept : Bool
  pub pin_gate : PinGate

pub record WebShareHost : Type 0 where
  pub device : DeviceInfo
  pub events_tx : Sender
  pub accept_timeout : Duration
  pub share : Option WebShareState

-- A finished download's task, which has yet to take the lock.
pub record FinishTask : Type 0 where
  pub session_id : SessionId
  pub file_id : FileId

-- The host, with the channels that the consumer's answers go through: what was sent on each, those
-- whose receiver is gone, and the tasks of finished downloads. `announced` and `own` are the
-- `download` flags of the server's state and of the server itself.
pub record WebWorld : Type 0 where
  pub host : WebShareHost
  pub open host use *
  pub answers : Map Bool
  pub gone : List SessionId
  pub tasks : List FinishTask
  pub announced : Bool
  pub own : Bool

unfoldable pub set_share : Option WebShareState → WebWorld → WebWorld
set_share s w = record w { host = record (w.host) { share = s } }

unfoldable pub set_events : Sender → WebWorld → WebWorld
set_events tx w = record w { host = record (w.host) { events_tx = tx } }

-- The files by their identifiers; of two with one identifier the later stays.
pub index_files : List WebShareFile → Map WebShareFile → Map WebShareFile
index_files [] m = m
index_files (file ∷ files) m = index_files files (insert file.metadata.id file m)

unfoldable pub new_share : List WebShareFile → Option Text → Bool → WebShareState
unfolding index_files Pin.new
new_share files pin auto_accept = record {
  files = index_files files [];
  sessions = [];
  auto_accept = auto_accept;
  pin_gate = Pin.new pin;
}

-- `LocalSendServer::start_web_share` and `stop_web_share`; `running` says whether the server is.
unfoldable pub start_web_share :
    Bool → List WebShareFile → Option Text → Bool → WebWorld → WebWorld × Result (Unit {0})
unfolding new_share set_share
start_web_share running files pin auto_accept w =
    if is_empty files
    then (w, err (invalid_state (bytes "Web share requires at least one file")))
    else if not running
    then (w, err (invalid_state (bytes "Server is not running")))
    else (
      record (set_share (some (new_share files pin auto_accept)) w) {
        announced = true;
        own = true;
      },
      ok tt,
    )

unfoldable pub stop_web_share : Bool → WebWorld → WebWorld × Result (Unit {0})
unfolding set_share
stop_web_share running w =
    if not running
    then (w, err (invalid_state (bytes "Server is not running")))
    else (record (set_share none w) { announced = false; own = false }, ok tt)

-- The sender's half of the answer: it goes out if the request still waits.
unfoldable pub send_answer : SessionId → Bool → WebWorld → WebWorld × Result (Unit {0})
send_answer address accepted w =
    if contains w.gone address
    then (w, err (invalid_state (bytes "Web Share requester disconnected")))
    else (record w { answers = insert address accepted w.answers }, ok tt)

-- `respond_web_share`: the session's sender is taken, whatever becomes of the answer.
unfoldable pub respond_web_share : Bool → SessionId → Bool → WebWorld → WebWorld × Result (Unit {0})
unfolding set_share send_answer
respond_web_share running session_id accepted w =
    let unknown = invalid_state (bytes "Unknown or already answered Web Share request") in
    if not running then (w, err (invalid_state (bytes "Server is not running"))) else elim w.share [
      | none ↦ (w, err unknown)
      | some web ↦ elim (lookup session_id web.sessions) [
        | none ↦ (w, err unknown)
        | some session ↦ elim session.response_tx [
          | none ↦ (w, err unknown)
          | some address ↦ send_answer address accepted (
              set_share
                (some (record web {
                  sessions = insert session_id (record session { response_tx = none }) web.sessions;
                }))
                w)
        ]
      ]
    ]

pub data WebResponse : Type 0 where
  status : StatusCode → WebResponse
  offers : DeviceInfo → SessionId → Map FileMetadata → WebResponse

pub metadata_of : Map WebShareFile → Map FileMetadata
metadata_of [] = []
metadata_of ((id, file) ∷ files) = (id, file.metadata) ∷ metadata_of files

unfoldable pub prepare_response : DeviceInfo → SessionId → WebShareState → WebResponse
unfolding metadata_of
prepare_response device session_id web =
    offers (record device { download = true }) session_id (metadata_of web.files)

-- `approved && ip == peer` of a session of the share.
unfoldable pub may_download : SessionId → IpAddr → WebShareState → Bool
may_download session_id peer web =
    is_some_and (lookup session_id web.sessions) (λ s. s.approved && s.ip == peer)

-- How the first stretch of `handle_prepare_download` ends: with a response, or with a wait.
pub data Prepared : Type 0 where
  answered : WebResponse → Prepared
  waits : Prepared

-- A new session, its random identifier given.
unfoldable pub open_session : SessionId → IpAddr → WebShareState → WebWorld → WebWorld × Prepared
unfolding set_share set_events prepare_response try_send
open_session fresh peer web w =
    let approved = web.auto_accept in
    let session : WebShareSession = record {
      ip = peer;
      approved = approved;
      response_tx = if approved then none else some fresh;
      downloaded_files = [];
    } in
    let web' = record web { sessions = insert fresh session web.sessions } in
    let w' = set_share (some web') w in
    if approved
    then (
      set_events (try_send (web_share_request fresh peer) w.events_tx) w',
      answered (prepare_response w.device fresh web'),
    )
    else (w', waits)

-- The first stretch: a known session is answered, another has to pass the PIN gate.
unfoldable pub begin_prepare :
    Option SessionId → Option Text → IpAddr → Instant → SessionId → WebWorld → WebWorld × Prepared
unfolding may_download prepare_response open_session set_share
begin_prepare known pin peer now fresh w = elim w.share [
  | none ↦ (w, answered (status forbidden))
  | some web ↦ elim (if is_some_and known (λ id. may_download id peer web) then known else none) [
    | some id ↦ (w, answered (prepare_response w.device id web))
    | none ↦
        let (gate, verdict) = Pin.check pin peer now web.pin_gate in
        let web' = record web { pin_gate = gate } in
        elim verdict [
          | Pin.unauthorized ↦ (set_share (some web') w, answered (status unauthorized))
          | Pin.locked_out ↦ (set_share (some web') w, answered (status too_many_requests))
          | Pin.ok _ ↦ open_session fresh peer web' w
        ]
  ]
]

-- The request is announced, and waits; `reached` says whether a consumer takes it. A request that
-- nobody takes drops its receiver and returns.
unfoldable pub announce : Bool → SessionId → IpAddr → WebWorld → WebWorld × Option WebResponse
unfolding set_events enqueue
announce reached fresh peer w =
    if reached
    then (set_events (enqueue (web_share_request fresh peer) w.events_tx) w, none)
    else (record w { gone = fresh ∷ w.gone }, some (status forbidden))

-- A request that is given up while it waits, its handler's future dropped.
unfoldable pub abandon_prepare : SessionId → WebWorld → WebWorld
abandon_prepare fresh w = record w { gone = fresh ∷ w.gone }

abbrev pub is_yes : Option Bool → Bool
is_yes none = false
is_yes (some b) = b

-- `get_mut(…)` with the two writes.
unfoldable pub approve : SessionId → WebShareState → WebShareState
approve session_id web = elim (lookup session_id web.sessions) [
  | none ↦ web
  | some session ↦ record web {
    sessions =
        insert session_id (record session { approved = true; response_tx = none }) web.sessions;
  }
]

-- The last stretch, after the wait. `in_time` says whether the wait ended before the timeout, on
-- an answer or on a channel that was closed.
unfoldable pub conclude_prepare : Bool → SessionId → WebWorld → WebWorld × WebResponse
unfolding set_share prepare_response approve
conclude_prepare in_time fresh w =
    let accepted = in_time && is_yes (lookup fresh w.answers) in
    let w' = record w { gone = fresh ∷ w.gone } in
    elim w.share [
      | none ↦ (w', status forbidden)
      | some web ↦
          if not accepted
          then (
            set_share (some (record web { sessions = remove fresh web.sessions })) w',
            status forbidden,
          )
          else (
            set_share (some (approve fresh web)) w',
            prepare_response w.device fresh (approve fresh web),
          )
    ]
