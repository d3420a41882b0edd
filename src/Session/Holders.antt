-- ===== src/Session/Holders.antt =====
-- core/session.rs: one session's receive slots with the leases and permits that are alive, under
-- every interleaving of the operations. A file stands in `leases` or `permits` once for each live
-- handle on it, and in `finished` once for each publication that was finished.
pub mod Closed
use localsend_rs.Base.{
  ℕ, ◌+◌, ◌≤◌, ◌≡◌, refl, inl, inr, true, Option, none, some, List, [], ◌∷◌, if◌then◌else◌, Map,
  lookup, contains, count, erase, count-erase, arith, Option-cases, Bool-cases,
}
use localsend_rs.Protocol.{FileId, FileMetadata}
use localsend_rs.Session.{
  ReceivePhase, ready, receiving, publishing, published, cancelled, ReceiveSlot, ReceiveLifecycle,
  StandardReceiveLease, StandardPublicationPermit, drop_lease, begin_publication, drop_permit,
  finish, begin_receive, try_cancel_receives, new, collect,
}
use localsend_rs.Session.Phases.{
  slot_of, slot_of-set_phase, slot_of-drop_lease, slot_of-drop_permit, begin_publication_lem,
  finish_lem, begin_receive_lem, begin_receive-none, try_cancel_receives_lem, publishes_lem,
}

pub record Live : Type 0 where
  pub lifecycle : ReceiveLifecycle
  pub leases : List FileId
  pub permits : List FileId
  pub finished : List FileId

-- What a handler may do next: claim a file, drop its lease, turn it into a permit, finish or drop
-- the permit. `cancels` is `try_cancel_receives`, by anybody.
pub data Event : Type 0 where
  claims drops_lease publishes_file finishes drops_permit : FileId → Event
  cancels : Event

abbrev pub lease_on : FileId → StandardReceiveLease
lease_on f = record { lifecycle = 0; file_id = f; armed = true }

abbrev pub permit_on : FileId → StandardPublicationPermit
permit_on f = record { lifecycle = 0; file_id = f; armed = true }

unfoldable pub claim : FileId → Live → Live
claim f s = elim (begin_receive 0 f s.lifecycle) [
  | none ↦ s
  | some (lc, lease) ↦ record s { lifecycle = lc; leases = lease.file_id ∷ s.leases }
]

unfoldable pub publish : FileId → Live → Live
publish f s =
    let (lc, permit) = begin_publication (lease_on f) s.lifecycle in
    record s {
      lifecycle = lc;
      leases = erase f s.leases;
      permits = elim permit [ none ↦ s.permits | some p ↦ p.file_id ∷ s.permits ];
    }

-- A panic in `finish` drops the permit on its way out.
unfoldable pub complete : FileId → Live → Live
complete f s = elim (finish (permit_on f) s.lifecycle) [
  | none ↦ record s {
    lifecycle = drop_permit (permit_on f) s.lifecycle;
    permits = erase f s.permits;
  }
  | some lc ↦ record s { lifecycle = lc; permits = erase f s.permits; finished = f ∷ s.finished }
]

-- Only the holder of a handle can use it: without one the event does not happen.
unfoldable pub step : Live → Event → Live
step s (claims f) = claim f s
step s (drops_lease f) =
    if contains s.leases f
    then record s { lifecycle = drop_lease (lease_on f) s.lifecycle; leases = erase f s.leases }
    else s
step s (publishes_file f) = if contains s.leases f then publish f s else s
step s (finishes f) = if contains s.permits f then complete f s else s
step s (drops_permit f) =
    if contains s.permits f
    then record s { lifecycle = drop_permit (permit_on f) s.lifecycle; permits = erase f s.permits }
    else s
step s cancels = record s { lifecycle = (try_cancel_receives s.lifecycle).0 }

unfoldable pub run : Live → List Event → Live
run s [] = s
run s (e ∷ es) = run (step s e) es

-- The handles and publications that a slot in a phase allows.
abbrev pub Allows : ReceivePhase → ℕ → ℕ → ℕ → Type 0
Allows ready l p n = (l ≡ 0) × (p ≡ 0) × (n ≡ 0)
Allows receiving l p n = (l ≡ 1) × (p ≡ 0) × (n ≡ 0)
Allows publishing l p n = (l ≡ 0) × (p ≡ 1) × (n ≡ 0)
Allows published l p n = (l ≡ 0) × (p ≡ 0) × (n ≡ 1)
Allows cancelled l p n = (l ≤ 1) × (p ≡ 0) × (n ≡ 0)

abbrev pub Owned : Option ReceiveSlot → ℕ → ℕ → ℕ → Type 0
Owned none l p n = (l ≡ 0) × (p ≡ 0) × (n ≡ 0)
Owned (some slot) l p n =
    Allows slot.phase l p n × (slot.cancellation ≡ true → slot.phase ≡ cancelled)

abbrev pub OwnedAt : Live → FileId → Type 0
OwnedAt s f =
    Owned (slot_of f s.lifecycle) (count f s.leases) (count f s.permits) (count f s.finished)

abbrev pub IsExclusive : Live → Type 0
IsExclusive s = (f : FileId) → OwnedAt s f

claim-Owned : (s : Live) (g f : FileId) → OwnedAt s g → OwnedAt s f → OwnedAt (claim g s) f
unfolding claim
claim-Owned s g f hg hf = elim (Option-cases (slot_of g s.lifecycle)) [
  | inl e ↦ rw (begin_receive-none 0 g s.lifecycle e, claim) hf
  | inr (slot, e) ↦ ground (
    arith,
    begin_receive_lem 0 g slot s.lifecycle e,
    slot_of-set_phase f g slot receiving s.lifecycle,
  )
]

lease_lost-Owned :
    (s : Live) (g f : FileId)
    → contains s.leases g ≡ true
    → OwnedAt s g
    → OwnedAt s f
    → OwnedAt
        (record s { lifecycle = drop_lease (lease_on g) s.lifecycle; leases = erase g s.leases })
        f
lease_lost-Owned s g f h hg hf = ground (
  arith,
  slot_of-drop_lease f (lease_on g) s.lifecycle,
  count-erase g f s.leases h,
  count-erase g g s.leases h,
)

permit_lost-Owned :
    (s : Live) (g f : FileId)
    → contains s.permits g ≡ true
    → OwnedAt s g
    → OwnedAt s f
    → OwnedAt
        (record s {
          lifecycle = drop_permit (permit_on g) s.lifecycle;
          permits = erase g s.permits;
        })
        f
permit_lost-Owned s g f h hg hf = ground (
  arith,
  slot_of-drop_permit f (permit_on g) s.lifecycle,
  count-erase g f s.permits h,
  count-erase g g s.permits h,
)

publish-Owned :
    (s : Live) (g f : FileId)
    → contains s.leases g ≡ true
    → OwnedAt s g
    → OwnedAt s f
    → OwnedAt (publish g s) f
unfolding publish
publish-Owned s g f h hg hf = ground (
  arith,
  begin_publication_lem f (lease_on g) s.lifecycle refl,
  count-erase g f s.leases h,
  count-erase g g s.leases h,
)

complete-Owned :
    (s : Live) (g f : FileId)
    → contains s.permits g ≡ true
    → OwnedAt s g
    → OwnedAt s f
    → OwnedAt (complete g s) f
unfolding complete
complete-Owned s g f h hg hf = elim (Option-cases (slot_of g s.lifecycle)) [
  | inl e ↦ absurd (ground (arith, count-erase g g s.permits h))
  | inr (slot, e) ↦ ground (
    arith,
    finish_lem (permit_on g) slot s.lifecycle e,
    slot_of-set_phase f g slot published s.lifecycle,
    count-erase g f s.permits h,
    count-erase g g s.permits h,
  )
]

cancel-Owned : (s : Live) (f : FileId) → OwnedAt s f → OwnedAt (step s cancels) f
unfolding step
cancel-Owned s f hf = elim (Option-cases (slot_of f s.lifecycle)) [
  | inl e ↦ ground (arith, try_cancel_receives_lem f s.lifecycle)
  | inr (slot, e) ↦
      ground (arith, try_cancel_receives_lem f s.lifecycle, publishes_lem f slot s.lifecycle e)
]

-- Every event keeps the ownership of every file exclusive.
pub step-IsExclusive : (s : Live) (e : Event) → IsExclusive s → IsExclusive (step s e)
unfolding step
step-IsExclusive s (claims g) h f = claim-Owned s g f (h g) (h f)
step-IsExclusive s (drops_lease g) h f = elim (Bool-cases (contains s.leases g)) [
  | inl e ↦ rw e (lease_lost-Owned s g f e (h g) (h f))
  | inr e ↦ rw e (h f)
]
step-IsExclusive s (publishes_file g) h f = elim (Bool-cases (contains s.leases g)) [
  | inl e ↦ rw e (publish-Owned s g f e (h g) (h f))
  | inr e ↦ rw e (h f)
]
step-IsExclusive s (finishes g) h f = elim (Bool-cases (contains s.permits g)) [
  | inl e ↦ rw e (complete-Owned s g f e (h g) (h f))
  | inr e ↦ rw e (h f)
]
step-IsExclusive s (drops_permit g) h f = elim (Bool-cases (contains s.permits g)) [
  | inl e ↦ rw e (permit_lost-Owned s g f e (h g) (h f))
  | inr e ↦ rw e (h f)
]
step-IsExclusive s cancels h f = cancel-Owned s f (h f)

pub run-IsExclusive : (s : Live) (es : List Event) → IsExclusive s → IsExclusive (run s es)
unfolding run
run-IsExclusive s [] h = h
run-IsExclusive s (e ∷ es) h = run-IsExclusive (step s e) es (step-IsExclusive s e h)

-- The slots of a new session, with no handle on any.
unfoldable pub opened : Map FileMetadata → Live
unfolding new
opened files = record {
  lifecycle = (new 0 (λ f. f) 0 0 [] files).1;
  leases = [];
  permits = [];
  finished = [];
}

opened-Owned : (files : Map FileMetadata) (f : FileId) → OwnedAt (opened files) f
unfolding opened new collect lookup
opened-Owned [] f = omega arith
opened-Owned ((k, m) ∷ files) f = ground (arith, opened-Owned files f)

-- Whatever the uploads and cancellations of a session do, in whatever order, no file ever has two
-- live handles, so no two uploads can publish it at once, and no file is published twice.
pub one_holder :
    (files : Map FileMetadata) (es : List Event) (f : FileId)
    → (count f (run (opened files) es).leases + count f (run (opened files) es).permits ≤ 1)
      × (count f (run (opened files) es).finished ≤ 1)
one_holder files es f = ground (arith, run-IsExclusive (opened files) es (opened-Owned files) f)
