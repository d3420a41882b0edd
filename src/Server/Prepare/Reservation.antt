-- ===== src/Server/Prepare/Reservation.antt =====
-- server/handlers.rs: when an offer gets the place of the current session.
use localsend_rs.Base.{
  ==_refl, ◌∙◌, ◌≡◌, ◌⊎◌, refl, inl, inr, ◌==◌, true, false, none, some, arith, Bool-cases,
  Option-cases, any, values, ap, is_some_and,
}
use localsend_rs.Protocol.{SessionId, IpAddr, Instant, PrepareUploadRequest}
use localsend_rs.Session
use localsend_rs.Session.{Session, is_publishing, try_cancel_receives}
use localsend_rs.Server.Http.{conflict}
use localsend_rs.Server.State.{
  World, lifecycle_at, cancel_session, set_lifecycle, set_current, set_current_from, set_awaiting,
}
use localsend_rs.Server.Prepare.{
  PrepareCall, ask, abandon, Fresh, new_session, install_placeholder, reserve, release_reservation,
}

-- Nothing is current, or a session that timed out and that is not being published.
abbrev pub Free : Instant → World → Type 0
Free now w =
    (w.current_session ≡ none)
    ⊎ ((session : Session) × (w.current_session ≡ some session)
        × (Session.is_timed_out now w.session_timeout session ≡ true)
        × (any is_publishing (values (lifecycle_at session.receive_lifecycle w).slots) ≡ false))

-- The offer holds the place: its placeholder is current, and it is the one that awaits consent.
abbrev pub Holds : Fresh → IpAddr → World → Type 0
Holds fresh peer w =
    ((session : Session) × (w.current_session ≡ some session) × (session.id ≡ fresh.session_id))
    × (w.current_session_from ≡ some peer)
    × (w.awaiting_consent
        ≡ some (record { session_id = fresh.session_id; from = peer; withdraw = fresh.address }))

install_placeholder-Holds :
    (fresh : Fresh) (peer : IpAddr) (now : Instant) (request : PrepareUploadRequest) (w : World)
    → Holds fresh peer (install_placeholder fresh peer now request w)
unfolding install_placeholder new_session set_awaiting set_current_from set_current Session.new
install_placeholder-Holds fresh peer now request w = ((_, refl, refl), refl, refl)

-- The offer was refused, and the current session stays.
abbrev pub Refused : Fresh → IpAddr → Instant → PrepareUploadRequest → World → Type 0
Refused fresh peer now request w =
    (session : Session) × ((reserve fresh peer now request w).1 ≡ some conflict)
    × (w.current_session ≡ some session)
    × ((reserve fresh peer now request w).0.current_session ≡ some session)
    × ((Session.is_timed_out now w.session_timeout session ≡ false)
        ⊎ (any is_publishing (values (lifecycle_at session.receive_lifecycle w).slots) ≡ true))

reserve-cases :
    (fresh : Fresh) (peer : IpAddr) (now : Instant) (request : PrepareUploadRequest) (w : World)
    → (Free now w
        × ((v : World) × (reserve fresh peer now request w
              ≡ (install_placeholder fresh peer now request v, none))))
      ⊎ Refused fresh peer now request w
unfolding reserve cancel_session try_cancel_receives set_lifecycle
reserve-cases fresh peer now request w = elim (Option-cases w.current_session) [
  | inl idle ↦ inl (inl idle, (w, ground arith))
  | inr (session, e) ↦ elim (Bool-cases (Session.is_timed_out now w.session_timeout session)) [
    | inr live ↦ inr (session, ground arith, e, ground arith, inl live)
    | inl old ↦
        elim (Bool-cases
          (any is_publishing (values (lifecycle_at session.receive_lifecycle w).slots))) [
            | inl busy ↦ inr (session, ground arith, e, ground arith, inr busy)
            | inr quiet ↦ inl (
              inr (session, e, old, quiet),
              (set_current none ((cancel_session session w).0), ground arith),
            )
          ]
  ]
]

-- An offer gets the place when the place is free, and then it holds it; otherwise it is answered
-- with a conflict, and the current session stays.
pub reserve_lem :
    (fresh : Fresh) (peer : IpAddr) (now : Instant) (request : PrepareUploadRequest) (w : World)
    → (Free now w
        × ((reserve fresh peer now request w).1 ≡ none)
        × Holds fresh peer ((reserve fresh peer now request w).0))
      ⊎ Refused fresh peer now request w
reserve_lem fresh peer now request w = elim (reserve-cases fresh peer now request w) [
  | inl (free, (v, e)) ↦
      inl (free, ap (λ r. r.1) e, rw e (install_placeholder-Holds fresh peer now request v))
  | inr kept ↦ inr kept
]

-- The guard of an offer that still holds the place makes it free again.
release-Holds :
    (fresh : Fresh) (peer : IpAddr) (w : World)
    → Holds fresh peer w
    → (let w' = release_reservation fresh.session_id w in
        (w'.current_session ≡ none)
        × (w'.current_session_from ≡ none)
        × (w'.awaiting_consent ≡ none))
unfolding release_reservation set_awaiting set_current set_current_from cancel_session set_lifecycle
release-Holds fresh peer w ((session, current, same), from, waits) = (
  ground (arith, ==_refl fresh.session_id),
  ground (arith, ==_refl fresh.session_id),
  ground (arith, ==_refl fresh.session_id),
)

-- What other requests leave of the reservation while one waits.
abbrev pub KeepsReservation : (World → World) → Type 0
KeepsReservation f =
    (v : World)
    → ((f v).current_session ≡ v.current_session)
      × ((f v).current_session_from ≡ v.current_session_from)
      × ((f v).awaiting_consent ≡ v.awaiting_consent)

Holds-meanwhile :
    (call : PrepareCall) (request : PrepareUploadRequest) (fresh : Fresh) (peer : IpAddr)
    (w : World)
    → KeepsReservation call.meanwhile
    → Holds fresh peer w
    → Holds fresh peer (call.meanwhile (ask call request w))
unfolding ask
Holds-meanwhile call request fresh peer w still ((session, current, same), from, waits) =
    let (k1, k2, k3) = still (ask call request w) in
    let a1 : (ask call request w).current_session ≡ w.current_session = ground arith in
    let a2 : (ask call request w).current_session_from ≡ w.current_session_from = ground arith in
    let a3 : (ask call request w).awaiting_consent ≡ w.awaiting_consent = ground arith in
    ((session, k1 ∙ a1 ∙ current, same), k2 ∙ a2 ∙ from, k3 ∙ a3 ∙ waits)

-- An offer that was given the place and whose client disconnects while nothing else changes the
-- session, the peer that reserved it and the reservation frees the place again.
pub abandon_frees :
    (call : PrepareCall) (request : PrepareUploadRequest) (w : World)
    → (reserve call.placeholder call.peer call.arrived request w).1 ≡ none
    → KeepsReservation call.meanwhile
    → (let w' =
          abandon call request (reserve call.placeholder call.peer call.arrived request w).0 in
        (w'.current_session ≡ none)
        × (w'.current_session_from ≡ none)
        × (w'.awaiting_consent ≡ none))
unfolding abandon
abandon_frees call request w given still =
    elim (reserve_lem call.placeholder call.peer call.arrived request w) [
      | inr (session, refused, current, kept, why) ↦ absurd (ground arith)
      | inl (free, granted, holds) ↦
          let w1 = (reserve call.placeholder call.peer call.arrived request w).0 in
          release-Holds call.placeholder call.peer (call.meanwhile (ask call request w1))
            (Holds-meanwhile call request call.placeholder call.peer w1 still holds)
    ]

-- The guard of a request whose reservation was withdrawn or taken over touches nothing.
release_foreign :
    (reserved : SessionId) (w : World)
    → is_some_and w.awaiting_consent (λ r. r.session_id == reserved) ≡ false
    → release_reservation reserved w ≡ w
unfolding release_reservation
release_foreign reserved w e = ground arith

-- The guard never ends a session other than its own placeholder.
pub release_own :
    (reserved : SessionId) (w : World)
    → ((release_reservation reserved w).current_session ≡ w.current_session)
      ⊎ ((session : Session) × (w.current_session ≡ some session)
          × ((session.id == reserved) ≡ true)
          × ((release_reservation reserved w).current_session ≡ none))
unfolding release_reservation set_awaiting set_current set_current_from cancel_session set_lifecycle
release_own reserved w =
    elim (Bool-cases (is_some_and w.awaiting_consent (λ r. r.session_id == reserved))) [
      | inr other ↦ inl (ground arith)
      | inl mine ↦ elim (Option-cases w.current_session) [
        | inl gone ↦ inl (ground arith)
        | inr (session, e) ↦ elim (Bool-cases (session.id == reserved)) [
          | inr newer ↦ inl (ground arith)
          | inl this ↦ inr (session, e, this, ground arith)
        ]
      ]
    ]
