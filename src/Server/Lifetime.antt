-- ===== src/Server/Lifetime.antt =====
-- server/server.rs: the sweep of sessions that timed out, and the orderly stop.
pub mod Sweeping
use localsend_rs.Base.{true, none, some, ◌∷◌, if◌then◌else◌}
use localsend_rs.Protocol.{Instant}
use localsend_rs.Session
use localsend_rs.Server.State.{World, cancel_session, set_current, is_timed_out}

-- One tick of `spawn_session_sweep`: the standard session, then the protected one.
pub sweep_standard : Instant → World → World
unfolding cancel_session set_current
sweep_standard now w = elim w.current_session [
  | none ↦ w
  | some session ↦
      if Session.is_timed_out now w.session_timeout session
      then (let (w', done) = cancel_session session w in if done then set_current none w' else w')
      else w
]

pub sweep_protected : Instant → World → World
unfolding is_timed_out
sweep_protected now w = elim w.crosscopy_authorized_session [
  | none ↦ w
  | some session ↦
      if is_timed_out now 300 session
      then record w {
        state = record (w.state) { crosscopy_authorized_session = none };
        cancelled_owners = session.owner ∷ w.cancelled_owners;
      }
      else w
]

pub sweep : Instant → World → World
unfolding sweep_standard sweep_protected
sweep now w = sweep_protected now (sweep_standard now w)

-- The standard half of `stop`, under the lock that closes protected admission.
unfoldable pub stop_standard : World → World
unfolding cancel_session set_current
stop_standard w = elim w.current_session [
  | none ↦ w
  | some session ↦
      let (w', done) = cancel_session session w in if done then set_current none w' else w'
]

unfoldable pub stop_protected : World → World
stop_protected w = record w {
  state = record (w.state) {
    crosscopy_authorized_session = none;
    crosscopy_authorized_active_upload = none;
  };
  cancelled_tokens = elim w.crosscopy_authorized_active_upload [
    | none ↦ w.cancelled_tokens
    | some active ↦ active.cancellation ∷ w.cancelled_tokens
  ];
  cancelled_owners = elim w.crosscopy_authorized_session [
    | none ↦ w.cancelled_owners
    | some session ↦ session.owner ∷ w.cancelled_owners
  ];
}

-- `LocalSendServer::stop`, up to the end of its tasks.
unfoldable pub stop : World → World
unfolding stop_standard stop_protected
stop w =
    stop_protected (
      stop_standard
        (record w { state = record (w.state) { crosscopy_authorized_stopping = true } }))
