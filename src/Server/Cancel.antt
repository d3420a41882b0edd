-- ===== src/Server/Cancel.antt =====
-- server/handlers.rs: `handle_cancel`. It runs under one lock; what it asks of a protected owner
-- comes after it.
pub mod Rights
use localsend_rs.Base.{
  ◌&&◌, not, Option, none, some, ◌∷◌, ◌==◌, if◌then◌else◌, is_some, is_some_and,
}
use localsend_rs.Protocol.{SessionId, IpAddr}
use localsend_rs.Server.Events.{session_done}
use localsend_rs.Server.Http.{StatusCode, ok, bad_request, forbidden, conflict}
use localsend_rs.Server.State.{
  World, ConsentReservation, send, cancel_session, set_current, set_current_from, set_awaiting,
}

-- `reservation.withdraw.cancel()`.
pub withdraw : ConsentReservation → World → World
withdraw r w = record w { withdrawn = r.withdraw ∷ w.withdrawn }

-- The offer's placeholder goes, if it is still current.
pub clear_placeholder : SessionId → World → World
unfolding cancel_session set_current set_current_from
clear_placeholder reserved w = elim w.current_session [
  | none ↦ w
  | some session ↦
      if session.id == reserved
      then set_current_from none (set_current none ((cancel_session session w).0))
      else w
]

-- A cancel that names no session: the sender gives up while somebody is still deciding.
pub cancel_offer : IpAddr → World → World × StatusCode
unfolding withdraw clear_placeholder set_awaiting
cancel_offer peer w = elim w.awaiting_consent [
  | none ↦ (w, bad_request)
  | some reservation ↦
      if not (reservation.from == peer)
      then (set_awaiting (some reservation) (set_awaiting none w), forbidden)
      else (
        withdraw reservation (clear_placeholder reservation.session_id (set_awaiting none w)),
        ok,
      )
]

-- A standard session with the given id.
pub cancel_standard : SessionId → World → World × StatusCode
unfolding cancel_session set_current set_current_from send
cancel_standard session_id w = elim w.current_session [
  | none ↦ (w, ok)
  | some session ↦
      if not (session.id == session_id)
      then (w, ok)
      else (let (w', done) = cancel_session session w in
          if not done
          then (w', conflict)
          else (set_current_from none (set_current none (send (session_done session_id) w')), ok))
]

-- A protected upload that is receiving, or else a standard session.
pub cancel_active : SessionId → World → World × StatusCode
unfolding cancel_standard
cancel_active session_id w = elim w.crosscopy_authorized_active_upload [
  | none ↦ cancel_standard session_id w
  | some active ↦
      if active.session_id == session_id
      then (record w { cancelled_tokens = active.cancellation ∷ w.cancelled_tokens }, ok)
      else cancel_standard session_id w
]

-- A cancel that names a session and may do so.
pub cancel_named : SessionId → World → World × StatusCode
unfolding cancel_active
cancel_named session_id w = elim w.crosscopy_authorized_session [
  | none ↦ cancel_active session_id w
  | some session ↦
      if session.session_id == session_id
      then (
        record w {
          state = record (w.state) { crosscopy_authorized_session = none };
          cancelled_owners = session.owner ∷ w.cancelled_owners;
        },
        ok,
      )
      else cancel_active session_id w
]

pub handle_cancel : Option SessionId → IpAddr → World → World × StatusCode
unfolding cancel_offer cancel_named
handle_cancel none peer w = cancel_offer peer w
handle_cancel (some session_id) peer w =
    let claimed_by_sender =
      is_some_and w.current_session_from (λ reserved_by. reserved_by == peer) in
    if not claimed_by_sender && is_some w.current_session_from
    then (w, forbidden)
    else cancel_named session_id w
