-- ===== src/Session/Phases.antt =====
-- core/session.rs: what each operation on the receive slots does to the slot of any one file.
use localsend_rs.Base.{
  ℕ, ◌≡◌, refl, inl, inr, Bool, true, false, Option, none, some, [], ◌∷◌, ◌==◌, if◌then◌else◌, Map,
  lookup, values, any, arith, lookup-insert, Option-cases, Bool-cases, not,
}
use localsend_rs.Protocol.{FileId}
use localsend_rs.Session.{
  ReceivePhase, ready, receiving, publishing, published, phase_eq, ReceiveSlot, ReceiveLifecycle,
  StandardReceiveLease, StandardPublicationPermit, set_phase, transition, drop_lease,
  begin_publication, drop_permit, finish, begin_receive, is_publishing, cancel_slot, cancel_slots,
  try_cancel_receives,
}

-- The slot that `transition from to` leaves of a slot.
abbrev pub move : ReceivePhase → ReceivePhase → Option ReceiveSlot → Option ReceiveSlot
move from to none = none
move from to (some slot) =
    if phase_eq slot.phase from then some (record slot { phase = to }) else some slot

abbrev pub slot_of : FileId → ReceiveLifecycle → Option ReceiveSlot
slot_of f lc = lookup f lc.slots

pub slot_of-set_phase :
    (f g : FileId) (slot : ReceiveSlot) (p : ReceivePhase) (lc : ReceiveLifecycle)
    → slot_of f (set_phase g slot p lc)
      ≡ (if g == f then some (record slot { phase = p }) else slot_of f lc)
unfolding set_phase
slot_of-set_phase f g slot p lc = lookup-insert g f (record slot { phase = p }) lc.slots

pub slot_of-transition :
    (f g : FileId) (from to : ReceivePhase) (lc : ReceiveLifecycle)
    → slot_of f (transition g from to lc).0
      ≡ (if g == f then move from to (slot_of g lc) else slot_of f lc)
unfolding set_phase
slot_of-transition f g from to lc = elim (Option-cases (slot_of g lc)) [
  | inl e ↦ ground arith
  | inr (slot, e) ↦ ground (arith, lookup-insert g f (record slot { phase = to }) lc.slots)
]

pub slot_of-drop_lease :
    (f : FileId) (lease : StandardReceiveLease) (lc : ReceiveLifecycle)
    → slot_of f (drop_lease lease lc) ≡ (
        if lease.armed
        then (if lease.file_id == f
            then move receiving ready (slot_of lease.file_id lc)
            else slot_of f lc)
        else slot_of f lc)
unfolding drop_lease
slot_of-drop_lease f lease lc = elim (Bool-cases lease.armed) [
  | inl e ↦ rw (e, drop_lease) (slot_of-transition f lease.file_id receiving ready lc)
  | inr e ↦ rw (e, drop_lease)
]

pub slot_of-drop_permit :
    (f : FileId) (permit : StandardPublicationPermit) (lc : ReceiveLifecycle)
    → slot_of f (drop_permit permit lc) ≡ (
        if permit.armed
        then (if permit.file_id == f
            then move publishing ready (slot_of permit.file_id lc)
            else slot_of f lc)
        else slot_of f lc)
unfolding drop_permit
slot_of-drop_permit f permit lc = elim (Bool-cases permit.armed) [
  | inl e ↦ rw (e, drop_permit) (slot_of-transition f permit.file_id publishing ready lc)
  | inr e ↦ rw (e, drop_permit)
]

-- Whether a slot is there in the given phase.
abbrev pub at_phase : ReceivePhase → Option ReceiveSlot → Bool
at_phase p none = false
at_phase p (some slot) = phase_eq slot.phase p

transition_flag :
    (g : FileId) (from to : ReceivePhase) (lc : ReceiveLifecycle)
    → (transition g from to lc).1 ≡ at_phase from (slot_of g lc)
unfolding set_phase
transition_flag g from to lc = ground arith

-- A live lease turns into a permit exactly from `receiving`, and then only its slot moves.
pub begin_publication_lem :
    (f : FileId) (lease : StandardReceiveLease) (lc : ReceiveLifecycle)
    → lease.armed ≡ true
    → ((begin_publication lease lc).1 ≡ (
        if at_phase receiving (slot_of lease.file_id lc)
        then some (record { lifecycle = lease.lifecycle; file_id = lease.file_id; armed = true })
        else none))
      × (slot_of f (begin_publication lease lc).0 ≡ (
          if lease.file_id == f
          then move receiving publishing (slot_of lease.file_id lc)
          else slot_of f lc))
unfolding begin_publication
begin_publication_lem f lease lc h = elim (Option-cases (slot_of lease.file_id lc)) [
  | inl e ↦ (ground arith, ground arith)
  | inr (slot, e) ↦ (
    ground arith,
    ground (
      arith,
      lookup-insert lease.file_id f (record slot { phase = publishing }) lc.slots,
      lookup-insert lease.file_id f (record slot { phase = ready }) lc.slots,
    ),
  )
]

-- `finish` fails only without a slot.
pub finish_lem :
    (permit : StandardPublicationPermit) (slot : ReceiveSlot) (lc : ReceiveLifecycle)
    → slot_of permit.file_id lc ≡ some slot
    → finish permit lc ≡ some (set_phase permit.file_id slot published lc)
unfolding finish
finish_lem permit slot lc e = rw (e, finish)

pub finish-none :
    (permit : StandardPublicationPermit) (lc : ReceiveLifecycle)
    → slot_of permit.file_id lc ≡ none
    → finish permit lc ≡ none
unfolding finish
finish-none permit lc e = rw (e, finish)

-- A lease is given exactly for a slot that is ready.
pub begin_receive_lem :
    (address : ℕ) (g : FileId) (slot : ReceiveSlot) (lc : ReceiveLifecycle)
    → slot_of g lc ≡ some slot
    → begin_receive address g lc ≡ (
        if phase_eq slot.phase ready
        then some (
          set_phase g slot receiving lc,
          record { lifecycle = address; file_id = g; armed = true },
        )
        else none)
unfolding begin_receive
begin_receive_lem address g slot lc e = ground arith

pub begin_receive-none :
    (address : ℕ) (g : FileId) (lc : ReceiveLifecycle)
    → slot_of g lc ≡ none
    → begin_receive address g lc ≡ none
unfolding begin_receive
begin_receive-none address g lc e = rw (e, begin_receive)

abbrev pub cancel_option : Option ReceiveSlot → Option ReceiveSlot
cancel_option none = none
cancel_option (some slot) = some (cancel_slot slot)

lookup-cancel_slots :
    (f : FileId) (m : Map ReceiveSlot) → lookup f (cancel_slots m) ≡ cancel_option (lookup f m)
unfolding cancel_slots lookup
lookup-cancel_slots f [] = refl
lookup-cancel_slots f ((k, slot) ∷ m) = ground (arith, lookup-cancel_slots f m)

-- Whether some receive of the session is being published.
abbrev pub publishes : ReceiveLifecycle → Bool
publishes lc = any is_publishing (values lc.slots)

lookup_publishing :
    (f : FileId) (slot : ReceiveSlot) (m : Map ReceiveSlot)
    → lookup f m ≡ some slot
    → slot.phase ≡ publishing
    → any is_publishing (values m) ≡ true
unfolding lookup
lookup_publishing f slot [] e h = cc
lookup_publishing f slot ((k, s) ∷ m) e h = ground (arith, lookup_publishing f slot m)

pub publishes_lem :
    (f : FileId) (slot : ReceiveSlot) (lc : ReceiveLifecycle)
    → slot_of f lc ≡ some slot
    → slot.phase ≡ publishing
    → publishes lc ≡ true
publishes_lem f slot lc e h = lookup_publishing f slot lc.slots e h

-- A cancellation happens unless a receive is being published, and then reaches each slot.
pub try_cancel_receives_lem :
    (f : FileId) (lc : ReceiveLifecycle)
    → ((try_cancel_receives lc).1 ≡ not (publishes lc))
      × (slot_of f (try_cancel_receives lc).0
          ≡ (if publishes lc then slot_of f lc else cancel_option (slot_of f lc)))
unfolding try_cancel_receives
try_cancel_receives_lem f lc = elim (Bool-cases (publishes lc)) [
  | inl e ↦ (ground arith, ground arith)
  | inr e ↦ (ground arith, ground (arith, lookup-cancel_slots f lc.slots))
]
