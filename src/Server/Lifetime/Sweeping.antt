-- ===== src/Server/Lifetime/Sweeping.antt =====
-- server/server.rs: what the sweep removes.
use localsend_rs.Base.{
  ◌≡◌, ◌⊎◌, inl, inr, true, false, none, some, arith, Bool-cases, Option-cases, any, values,
}
use localsend_rs.Protocol.{Instant}
use localsend_rs.Session
use localsend_rs.Session.{Session, is_publishing, try_cancel_receives}
use localsend_rs.Server.State.{World, lifecycle_at, cancel_session, set_lifecycle, set_current}
use localsend_rs.Server.Lifetime.{sweep, sweep_standard, sweep_protected}

sweep-current :
    (now : Instant) (w : World)
    → (sweep now w).current_session ≡ (sweep_standard now w).current_session
unfolding sweep sweep_protected
sweep-current now w = ground arith

-- The current session stays, or it is gone: then it timed out, and none of its files was being
-- published.
abbrev pub Swept : Instant → World → World → Type 0
Swept now w w' =
    (w'.current_session ≡ w.current_session)
    ⊎ ((session : Session) × (w.current_session ≡ some session)
        × (Session.is_timed_out now w.session_timeout session ≡ true)
        × (any is_publishing (values (lifecycle_at session.receive_lifecycle w).slots) ≡ false)
        × (w'.current_session ≡ none))

-- A sweep leaves the current session in place, or it ends it: then the session timed out and none
-- of its files was being published.
pub sweep_removes : (now : Instant) (w : World) → Swept now w (sweep now w)
unfolding sweep_standard cancel_session set_current set_lifecycle try_cancel_receives
sweep_removes now w = elim (Option-cases w.current_session) [
  | inl idle ↦ inl (ground (arith, sweep-current now w))
  | inr (session, e) ↦ elim (Bool-cases (Session.is_timed_out now w.session_timeout session)) [
    | inr live ↦ inl (ground (arith, sweep-current now w))
    | inl old ↦
        elim (Bool-cases
          (any is_publishing (values (lifecycle_at session.receive_lifecycle w).slots))) [
            | inl busy ↦ inl (ground (arith, sweep-current now w))
            | inr quiet ↦ inr (session, e, old, quiet, ground (arith, sweep-current now w))
          ]
  ]
]
