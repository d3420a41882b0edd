-- ===== src/Session.antt =====
-- core/session.rs: the receive slots of one session, the handles that own a slot, and the session.
pub mod Received
pub mod Holders
pub mod Phases
use localsend_rs.Base.{
  ℕ, ◌-◌, Bool, true, false, ◌||◌, not, Option, none, some, List, [], ◌∷◌, ◌==◌, ltb, if◌then◌else◌,
  Map, lookup, insert, values, any, length, set_insert, contains_key,
}
use localsend_rs.Protocol.{Text, FileId, SessionId, Token, Instant, Duration, FileMetadata}

pub data ReceivePhase : Type 0 where
  ready receiving publishing published cancelled : ReceivePhase

abbrev pub phase_eq : ReceivePhase → ReceivePhase → Bool
phase_eq ready ready = true
phase_eq receiving receiving = true
phase_eq publishing publishing = true
phase_eq published published = true
phase_eq cancelled cancelled = true
phase_eq _ _ = false

-- `cancellation` is the state of the slot's token, which its lease shares.
pub record ReceiveSlot : Type 0 where
  pub phase : ReceivePhase
  pub cancellation : Bool

pub record ReceiveLifecycle : Type 0 where
  pub slots : Map ReceiveSlot

-- `lifecycle` is the address of the shared, locked lifecycle.
pub record StandardReceiveLease : Type 0 where
  pub lifecycle : ℕ
  pub file_id : FileId
  pub armed : Bool

pub record StandardPublicationPermit : Type 0 where
  pub lifecycle : ℕ
  pub file_id : FileId
  pub armed : Bool

-- `slots.get_mut(id)` and a write of the phase.
pub set_phase : FileId → ReceiveSlot → ReceivePhase → ReceiveLifecycle → ReceiveLifecycle
set_phase id slot p lc = record lc { slots = insert id (record slot { phase = p }) lc.slots }

-- A write of phase `to` to the slot of `id` if its phase is `from`, and whether it was written.
abbrev pub transition :
    FileId → ReceivePhase → ReceivePhase → ReceiveLifecycle → ReceiveLifecycle × Bool
unfolding set_phase
transition id from to lc = elim (lookup id lc.slots) [
  | none ↦ (lc, false)
  | some slot ↦ if phase_eq slot.phase from then (set_phase id slot to lc, true) else (lc, false)
]

pub drop_lease : StandardReceiveLease → ReceiveLifecycle → ReceiveLifecycle
unfolding set_phase
drop_lease lease lc =
    if not lease.armed then lc else (transition lease.file_id receiving ready lc).0

-- `begin_publication` consumes the lease: where it gives no permit, the lease is dropped.
unfoldable pub begin_publication :
    StandardReceiveLease → ReceiveLifecycle → ReceiveLifecycle × Option StandardPublicationPermit
unfolding set_phase drop_lease
begin_publication lease lc =
    let (lc', transitioned) = transition lease.file_id receiving publishing lc in
    if transitioned
    then (
      drop_lease (record lease { armed = false }) lc',
      some (record { lifecycle = lease.lifecycle; file_id = lease.file_id; armed = true }),
    )
    else (drop_lease lease lc', none)

pub drop_permit : StandardPublicationPermit → ReceiveLifecycle → ReceiveLifecycle
unfolding set_phase
drop_permit permit lc =
    if not permit.armed then lc else (transition permit.file_id publishing ready lc).0

-- `none` is the panic of `expect`. (A build with debug assertions also checks the phase.)
unfoldable pub finish : StandardPublicationPermit → ReceiveLifecycle → Option ReceiveLifecycle
unfolding set_phase
finish permit lc = elim (lookup permit.file_id lc.slots) [
  | none ↦ none
  | some slot ↦ some (set_phase permit.file_id slot published lc)
]

pub record Session : Type 0 where
  pub id : SessionId
  pub files : Map FileMetadata
  pub tokens : Map Token
  pub received : List FileId
  pub received_bytes : ℕ
  pub sender_alias : Text
  pub created_at : Instant
  pub last_activity : Instant
  pub receive_lifecycle : ℕ

abbrev pub new_slot : ReceiveSlot
new_slot = record { phase = ready; cancellation = false }

-- `keys().map(…).collect()` into a map.
unfoldable pub collect {ℓ κ} : {V : Type ℓ} {W : Type κ} → (FileId → W) → Map V → Map W
collect f [] = []
collect f ((k, v) ∷ m) = (k, f k) ∷ collect f m

-- `Session::new`. The environment gives the random identifier, the token that it draws for each
-- file, and the address of the two shared cells.
unfoldable pub new :
    SessionId
    → (FileId → Token)
    → ℕ
    → Instant
    → Text
    → Map FileMetadata
    → Session × ReceiveLifecycle
unfolding collect
new id draw address now sender_alias files = (
  record {
    id = id;
    files = files;
    tokens = collect draw files;
    received = [];
    received_bytes = address;
    sender_alias = sender_alias;
    created_at = now;
    last_activity = now;
    receive_lifecycle = address;
  },
  record { slots = collect (λ _. new_slot) files },
)

pub touch : Instant → Session → Session
touch now s = record s { last_activity = now }

-- `elapsed()` is 0 where the clock did not pass the instant.
unfoldable pub is_timed_out : Instant → Duration → Session → Bool
is_timed_out now timeout s = ltb timeout (now - s.last_activity)

unfoldable pub verify_token : FileId → Token → Session → Bool
verify_token file_id token s = elim (lookup file_id s.tokens) [
  | none ↦ false
  | some expected ↦ expected == token
]

abbrev pub get_token : FileId → Session → Option Token
get_token file_id s = lookup file_id s.tokens

-- `begin_receive` under the lifecycle's lock; `address` is the lifecycle's.
unfoldable pub begin_receive :
    ℕ → FileId → ReceiveLifecycle → Option (ReceiveLifecycle × StandardReceiveLease)
unfolding set_phase
begin_receive address file_id lc = elim (lookup file_id lc.slots) [
  | none ↦ none
  | some slot ↦
      if not (phase_eq slot.phase ready)
      then none
      else some (
        set_phase file_id slot receiving lc,
        record { lifecycle = address; file_id = file_id; armed = true },
      )
]

abbrev pub is_publishing : ReceiveSlot → Bool
is_publishing slot = phase_eq slot.phase publishing

abbrev pub cancel_slot : ReceiveSlot → ReceiveSlot
cancel_slot slot =
    if phase_eq slot.phase ready || phase_eq slot.phase receiving
    then record { phase = cancelled; cancellation = true }
    else slot

pub cancel_slots : Map ReceiveSlot → Map ReceiveSlot
cancel_slots [] = []
cancel_slots ((k, slot) ∷ m) = (k, cancel_slot slot) ∷ cancel_slots m

unfoldable pub try_cancel_receives : ReceiveLifecycle → ReceiveLifecycle × Bool
unfolding cancel_slots
try_cancel_receives lc =
    if any is_publishing (values lc.slots)
    then (lc, false)
    else (record lc { slots = cancel_slots lc.slots }, true)

-- The new session, and whether every file has arrived.
unfoldable pub mark_received : Instant → FileId → Session → Session × Bool
unfolding set_insert
mark_received now file_id s =
    if not (contains_key file_id s.files)
    then (s, false)
    else let received' = set_insert file_id s.received in
      (record s { received = received'; last_activity = now }, length received' == length s.files)
