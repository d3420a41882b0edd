-- ===== src/Server/Cancel/Rights.antt =====
-- server/handlers.rs: who may end which session with `handle_cancel`.
use localsend_rs.Base.{
  ◌≡◌, ◌⊎◌, ◌∙◌, inl, inr, ◌==◌, true, false, none, some, arith, Bool-cases, Option-cases, any,
  values, contains,
}
use localsend_rs.Protocol.{SessionId, IpAddr}
use localsend_rs.Session.{Session, is_publishing, try_cancel_receives}
use localsend_rs.Server.State.{
  World, ConsentReservation, lifecycle_at, cancel_session, set_lifecycle, set_current,
  set_current_from, set_awaiting, send,
}
use localsend_rs.Server.Cancel.{
  handle_cancel, cancel_named, cancel_active, cancel_standard, cancel_offer, clear_placeholder,
  withdraw,
}

-- The peer reserved the current session, or nobody is recorded to have done so.
abbrev pub MayCancel : IpAddr → World → Type 0
MayCancel peer w =
    (w.current_session_from ≡ none)
    ⊎ ((from : IpAddr) × (w.current_session_from ≡ some from) × ((from == peer) ≡ true))

-- The session was current, had the given id, was not being published, and is gone.
abbrev pub Ended : SessionId → World → World → Type 0
Ended id w w' =
    (session : Session) × (w.current_session ≡ some session)
    × ((session.id == id) ≡ true)
    × (any is_publishing (values (lifecycle_at session.receive_lifecycle w).slots) ≡ false)
    × (w'.current_session ≡ none)

cancel_standard_ends :
    (id : SessionId) (w : World)
    → ((cancel_standard id w).0.current_session ≡ w.current_session)
      ⊎ Ended id w ((cancel_standard id w).0)
unfolding cancel_standard cancel_session set_current set_current_from set_lifecycle send
    try_cancel_receives
cancel_standard_ends id w = elim (Option-cases w.current_session) [
  | inl idle ↦ inl (ground arith)
  | inr (session, e) ↦ elim (Bool-cases (session.id == id)) [
    | inr other ↦ inl (ground arith)
    | inl this ↦
        elim (Bool-cases
          (any is_publishing (values (lifecycle_at session.receive_lifecycle w).slots))) [
            | inl busy ↦ inl (ground arith)
            | inr quiet ↦ inr (session, e, this, quiet, ground arith)
          ]
  ]
]

cancel_named_or_standard :
    (id : SessionId) (w : World)
    → ((cancel_named id w).0.current_session ≡ w.current_session)
      ⊎ ((cancel_named id w).0.current_session ≡ (cancel_standard id w).0.current_session)
unfolding cancel_named cancel_active
cancel_named_or_standard id w = ground arith

cancel_named_ends :
    (id : SessionId) (w : World)
    → ((cancel_named id w).0.current_session ≡ w.current_session)
      ⊎ Ended id w ((cancel_named id w).0)
cancel_named_ends id w = elim (cancel_named_or_standard id w) [
  | inl kept ↦ inl kept
  | inr standard ↦ elim (cancel_standard_ends id w) [
    | inl kept ↦ inl (standard ∙ kept)
    | inr (session, e, this, quiet, gone) ↦ inr (session, e, this, quiet, standard ∙ gone)
  ]
]

handle_cancel-named :
    (id : SessionId) (peer : IpAddr) (w : World)
    → MayCancel peer w
    → handle_cancel (some id) peer w ≡ cancel_named id w
unfolding handle_cancel
handle_cancel-named id peer w (inl unknown) = ground arith
handle_cancel-named id peer w (inr (from, e, own)) = ground arith

-- A cancel that names a session ends the standard session only if the peer may do so, the session
-- has that id, and none of its files is being published; else the current session stays.
pub handle_cancel_ends :
    (id : SessionId) (peer : IpAddr) (w : World)
    → ((handle_cancel (some id) peer w).0.current_session ≡ w.current_session)
      ⊎ (MayCancel peer w × Ended id w ((handle_cancel (some id) peer w).0))
unfolding handle_cancel
handle_cancel_ends id peer w = elim (cancel_named_ends id w) [
  | inl kept ↦ inl (ground arith)
  | inr ended ↦ elim (Option-cases w.current_session_from) [
    | inl unknown ↦ inr (inl unknown, rw (handle_cancel-named id peer w (inl unknown)) ended)
    | inr (from, e) ↦ elim (Bool-cases (from == peer)) [
      | inr other ↦ inl (ground arith)
      | inl own ↦
          inr (inr (from, e, own), rw (handle_cancel-named id peer w (inr (from, e, own))) ended)
    ]
  ]
]

-- A cancel that names no session leaves the standard session alone unless the peer itself waits
-- for an answer to its offer and the session is that offer's placeholder; it then withdraws it.
cancel_offer_ends :
    (peer : IpAddr) (w : World)
    → ((handle_cancel none peer w).0.current_session ≡ w.current_session)
      ⊎ ((offer : ConsentReservation) × (session : Session) × (w.awaiting_consent ≡ some offer)
          × ((offer.from == peer) ≡ true)
          × (w.current_session ≡ some session)
          × ((session.id == offer.session_id) ≡ true)
          × ((handle_cancel none peer w).0.current_session ≡ none)
          × (contains (handle_cancel none peer w).0.withdrawn offer.withdraw ≡ true))
unfolding handle_cancel cancel_offer clear_placeholder withdraw set_awaiting set_current
    set_current_from cancel_session set_lifecycle
cancel_offer_ends peer w = elim (Option-cases w.awaiting_consent) [
  | inl idle ↦ inl (ground arith)
  | inr (offer, e) ↦ elim (Bool-cases (offer.from == peer)) [
    | inr other ↦ inl (ground arith)
    | inl own ↦ elim (Option-cases w.current_session) [
      | inl gone ↦ inl (ground arith)
      | inr (session, es) ↦ elim (Bool-cases (session.id == offer.session_id)) [
        | inr newer ↦ inl (ground arith)
        | inl this ↦ inr (offer, session, e, own, es, this, ground arith, ground arith)
      ]
    ]
  ]
]
