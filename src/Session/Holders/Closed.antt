-- ===== src/Session/Holders/Closed.antt =====
-- core/session.rs: a session whose receives were cancelled, under whatever its handlers do next.
use localsend_rs.Base.{
  ◌≡◌, refl, ◌⊎◌, inl, inr, true, false, Option, none, some, List, [], ◌∷◌, Map, contains, count,
  count-erase, arith, Option-cases, ◌∙◌,
}
use localsend_rs.Protocol.{FileId, FileMetadata}
use localsend_rs.Session.{published, cancelled, ReceiveSlot, try_cancel_receives}
use localsend_rs.Session.Phases.{
  slot_of, slot_of-drop_lease, begin_publication_lem, begin_receive_lem, begin_receive-none,
  try_cancel_receives_lem, publishes_lem,
}
use localsend_rs.Session.Holders.{
  Live, Event, claims, drops_lease, publishes_file, finishes, drops_permit, cancels, lease_on,
  claim, publish, step, run, IsExclusive, OwnedAt, opened, opened-Owned, run-IsExclusive,
}

-- A slot that no upload can take or publish any more.
abbrev pub IsOver : Option ReceiveSlot → Type 0
IsOver none = Unit
IsOver (some slot) = (slot.phase ≡ published) ⊎ (slot.phase ≡ cancelled)

abbrev pub IsClosed : Live → Type 0
IsClosed s = (f : FileId) → IsOver (slot_of f s.lifecycle) × (count f s.permits ≡ 0)

not-contains : (f : FileId) (xs : List FileId) → count f xs ≡ 0 → contains xs f ≡ false
not-contains f [] h = refl
not-contains f (x ∷ xs) h = ground (arith, not-contains f xs)

claim_closed : (s : Live) (g : FileId) → IsOver (slot_of g s.lifecycle) → claim g s ≡ s
unfolding claim
claim_closed s g h = elim (Option-cases (slot_of g s.lifecycle)) [
  | inl e ↦ rw (begin_receive-none 0 g s.lifecycle e, claim)
  | inr (slot, e) ↦ ground (arith, begin_receive_lem 0 g slot s.lifecycle e)
]

lease_lost_closed :
    (s : Live) (g f : FileId) → IsClosed s → IsOver (slot_of f (step s (drops_lease g)).lifecycle)
unfolding step
lease_lost_closed s g f h = ground (arith, slot_of-drop_lease f (lease_on g) s.lifecycle, h g, h f)

publish_closed :
    (s : Live) (g f : FileId)
    → IsClosed s
    → IsOver (slot_of f (publish g s).lifecycle)
      × ((publish g s).permits ≡ s.permits)
      × ((publish g s).finished ≡ s.finished)
unfolding publish
publish_closed s g f h =
    ground (arith, begin_publication_lem f (lease_on g) s.lifecycle refl, h g, h f)

step-IsClosed :
    (s : Live) (e : Event) → IsClosed s → IsClosed (step s e) × ((step s e).finished ≡ s.finished)
unfolding step
step-IsClosed s (claims g) h = rw (claim_closed s g (h g).0) (h, refl)
step-IsClosed s (drops_lease g) h =
    (λ f. (lease_lost_closed s g f h, ground (arith, h f)), ground arith)
step-IsClosed s (publishes_file g) h =
    (λ f. ground (arith, publish_closed s g f h, h f), ground (arith, publish_closed s g g h))
step-IsClosed s (finishes g) h = rw (not-contains g s.permits (h g).1) (h, refl)
step-IsClosed s (drops_permit g) h = rw (not-contains g s.permits (h g).1) (h, refl)
step-IsClosed s cancels h = (λ f. ground (arith, try_cancel_receives_lem f s.lifecycle, h f), refl)

run-IsClosed : (s : Live) (es : List Event) → IsClosed s → (run s es).finished ≡ s.finished
unfolding run
run-IsClosed s [] h = refl
run-IsClosed s (e ∷ es) h =
    let (h', same) = step-IsClosed s e h in run-IsClosed (step s e) es h' ∙ same

cancel-IsClosed :
    (s : Live)
    → IsExclusive s
    → (try_cancel_receives s.lifecycle).1 ≡ true
    → IsClosed (step s cancels)
unfolding step
cancel-IsClosed s h done f =
    ground (arith, try_cancel_receives_lem f s.lifecycle, h f, closes (slot_of f s.lifecycle) refl)
  where
    closes : (o : Option ReceiveSlot) → slot_of f s.lifecycle ≡ o → (count f s.permits ≡ 0)
    closes none e = ground (arith, h f)
    closes (some slot) e =
        ground
          (arith, h f, try_cancel_receives_lem f s.lifecycle, publishes_lem f slot s.lifecycle e)

-- After a cancellation that succeeded, whatever happened to the session before it, no upload ever
-- publishes another of its files.
pub cancelled_publishes_nothing :
    (files : Map FileMetadata) (before after : List Event)
    → (try_cancel_receives (run (opened files) before).lifecycle).1 ≡ true
    → (run (step (run (opened files) before) cancels) after).finished
      ≡ (run (opened files) before).finished
cancelled_publishes_nothing files before after done =
    run-IsClosed (step s cancels) after (cancel-IsClosed s owned done) ∙ same
  where
    s : Live
    s = run (opened files) before

    owned : IsExclusive s
    owned = run-IsExclusive (opened files) before (opened-Owned files)

    same : (step s cancels).finished ≡ s.finished
    same = unfold step in refl

-- While a receive of the session is being published, a cancellation is refused and changes no slot
-- of the session.
pub publishing_blocks_cancel :
    (files : Map FileMetadata) (before : List Event) (f g : FileId)
    → contains (run (opened files) before).permits g ≡ true
    → let lc = (run (opened files) before).lifecycle in
      ((try_cancel_receives lc).1 ≡ false) × (slot_of f (try_cancel_receives lc).0 ≡ slot_of f lc)
publishing_blocks_cancel files before f g held = blocked (slot_of g s.lifecycle) refl
  where
    s : Live
    s = run (opened files) before

    owned : OwnedAt s g
    owned = run-IsExclusive (opened files) before (opened-Owned files) g

    blocked :
        (o : Option ReceiveSlot)
        → slot_of g s.lifecycle ≡ o
        → ((try_cancel_receives s.lifecycle).1 ≡ false)
          × (slot_of f (try_cancel_receives s.lifecycle).0 ≡ slot_of f s.lifecycle)
    blocked none e = absurd (ground (arith, owned, count-erase g g s.permits held))
    blocked (some slot) e = ground (
      arith,
      owned,
      count-erase g g s.permits held,
      publishes_lem g slot s.lifecycle e,
      try_cancel_receives_lem f s.lifecycle,
    )
