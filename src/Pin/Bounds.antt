-- ===== src/Pin/Bounds.antt =====
-- server/pin.rs: whatever requests arrive, the gate's table and counters stay within bounds.
use localsend_rs.Base.{
  suc, ◌+◌, ◌-◌, ◌%◌, ◌<◌, ◌≤◌, ◌≡◌, Option, none, some, List, [], ◌∷◌, ltb, leb, Map, lookup,
  remove, length, arith, ◌⊎◌, inl, inr, Bool-cases, Option-cases, length-remove-le,
  length-insert-le, length-insert_old, lookup-insert, lookup-remove, u32_max, contains_key,
}
use localsend_rs.Protocol.{Text, IpAddr, Instant}
use localsend_rs.Pin.{
  PinGate, Failure, max_tracked_peers, max_failures, lockout, new, set, make_room, record_failure,
  unlock, fail, compare_pin, present, check, constant_time_eq,
}
use localsend_rs.Pin.Table.{
  Keyed, HasRoom, make_room-HasRoom, Keyed-remove, Keyed-insert, Within-remove,
}

-- No peer's count passes the limit.
abbrev pub Capped : Map Failure → Type 0
Capped m = (p : IpAddr) (f : Failure) → lookup p m ≡ some f → f.0 ≤ max_failures

abbrev pub Bounded : Map Failure → Type 0
Bounded m = (length m ≤ max_tracked_peers) × Keyed m × Capped m

pub record IsBounded (g : PinGate) : Type 0 where
  pub table : Bounded g.failures
  pub counted : g.wrong_values ≤ u32_max

-- A peer that `check` goes on with has failed fewer times than the limit.
abbrev Unspent : IpAddr → Map Failure → Type 0
Unspent p m = (f : Failure) → lookup p m ≡ some f → f.0 < max_failures

Bounded-remove : (p : IpAddr) (m : Map Failure) → Bounded m → Bounded (remove p m)
Bounded-remove p m (len, keyed, capped) = (
  omega (arith, length-remove-le p m),
  Keyed-remove p m keyed,
  λ q f h. capped q f (Within-remove p m q f h),
)

-- What the lockout test comes to: refused, gone on with, or forgiven because the lockout is over.
pub unlock-cases :
    (p : IpAddr) (now : Instant) (m : Map Failure)
    → (unlock p now m ≡ none)
      ⊎ ((unlock p now m ≡ some m) × Unspent p m)
      ⊎ (unlock p now m ≡ some (remove p m))
unfolding unlock
unlock-cases p now m = elim (Option-cases (lookup p m)) [
  | inl eo ↦ inr (inl (rw (eo, unlock), λ f h. cc))
  | inr ((c, at), eo) ↦ elim (Bool-cases (leb max_failures c)) [
    | inr few ↦ inr (inl (ground arith, λ f h. ground arith))
    | inl many ↦ elim (Bool-cases (ltb (now - at) lockout)) [
      | inl live ↦ inl (ground arith)
      | inr over ↦ inr (inr (ground arith))
    ]
  ]
]

record_failure-Bounded :
    (p : IpAddr) (now : Instant) (m : Map Failure)
    → Keyed m
    → Capped m
    → Unspent p m
    → (lookup p m ≡ none → length m < max_tracked_peers)
    → length m ≤ max_tracked_peers
    → Bounded (record_failure p now m)
unfolding record_failure
record_failure-Bounded p now m keyed capped unspent room len = elim (Option-cases (lookup p m)) [
  | inl eo ↦
      rw (eo, record_failure)
        (
          omega (arith, length-insert-le p (1, now) m, room eo),
          Keyed-insert p (1, now) m keyed,
          λ q f h. ground (arith, lookup-insert p q (1, now) m, capped q f),
        )
  | inr ((c, at), eo) ↦
      let next : Failure = ((c + 1) % suc u32_max, now) in
      rw (eo, record_failure)
        (
          rw (length-insert_old p next (c, at) m eo) len,
          Keyed-insert p next m keyed,
          λ q f h. ground (arith, lookup-insert p q next m, capped q f, unspent (c, at) eo),
        )
]

fail-IsBounded :
    (p : IpAddr) (now : Instant) (g : PinGate)
    → IsBounded g
    → Unspent p g.failures
    → IsBounded (fail p now g)
unfolding fail
fail-IsBounded p now g b unspent = elim (Bool-cases (contains_key p g.failures)) [
  | inl old ↦
      rw (old, fail)
        (record {
          table =
              record_failure-Bounded p now g.failures b.table.1 b.table.2 unspent
                (λ e. absurd (ground arith)) b.table.0;
          counted = omega arith;
        })
  | inr new_peer ↦
      let room : HasRoom (make_room now g.failures) g.failures =
        make_room-HasRoom now g.failures b.table.1 b.table.0 in
      rw (new_peer, fail)
        (record {
          table =
              record_failure-Bounded p now (make_room now g.failures) room.keyed
                (λ q f h. b.table.2 q f (room.within q f h)) (λ f h. unspent f (room.within p f h))
                (λ _. room.room) (omega (arith, room.room));
          counted = omega arith;
        })
]

present-IsBounded :
    (provided : Option Text) (expected : Text) (p : IpAddr) (now : Instant) (g : PinGate)
    → IsBounded g
    → Unspent p g.failures
    → IsBounded (present provided expected p now g).0
unfolding present compare_pin
present-IsBounded none expected p now g b unspent = b
present-IsBounded (some provided) expected p now g b unspent =
    elim (Bool-cases (constant_time_eq provided expected)) [
      | inl same ↦
          rw (same, compare_pin)
            (record { table = Bounded-remove p g.failures b.table; counted = omega arith })
      | inr other ↦ rw (other, compare_pin) (fail-IsBounded p now g b unspent)
    ]

-- Every request keeps the table within its limit, each peer's count at three at most, and the count
-- of wrong values within a `u32`, so neither counter wraps.
pub check-IsBounded :
    (provided : Option Text) (p : IpAddr) (now : Instant) (g : PinGate)
    → IsBounded g
    → IsBounded (check provided p now g).0
unfolding check
check-IsBounded provided p now g b = elim (Option-cases g.pin) [
  | inl e ↦ rw (e, check) b
  | inr (expected, e) ↦ elim (unlock-cases p now g.failures) [
    | inl locked ↦ rw (e, check) (rw (locked, check) b)
    | inr (inl (on, unspent)) ↦
        rw (e, check) (rw (on, check) (present-IsBounded provided expected p now g b unspent))
    | inr (inr on) ↦
        rw (e, check)
          (rw (on, check)
            (present-IsBounded provided expected p now (record g { failures = remove p g.failures })
              (record { table = Bounded-remove p g.failures b.table; counted = b.counted })
              (λ f h. absurd (ground (arith, lookup-remove p p g.failures)))))
  ]
]

-- A request or a change of the PIN.
pub data Call : Type 0 where
  checks : Option Text → IpAddr → Instant → Call
  sets : Option Text → Call

pub after : PinGate → Call → PinGate
after g (checks provided p now) = (check provided p now g).0
after g (sets pin) = set pin g

pub run : PinGate → List Call → PinGate
run g [] = g
run g (c ∷ cs) = run (after g c) cs

run-IsBounded : (g : PinGate) (cs : List Call) → IsBounded g → IsBounded (run g cs)
unfolding run after set lookup
run-IsBounded g [] b = b
run-IsBounded g (checks provided p now ∷ cs) b =
    run-IsBounded (check provided p now g).0 cs (check-IsBounded provided p now g b)
run-IsBounded g (sets pin ∷ cs) b =
    run-IsBounded (set pin g) cs
      (record { table = (omega arith, tt, λ q f h. cc); counted = omega arith })

-- From a new gate, whatever requests and changes of the PIN follow, at most 1024 peers are tracked,
-- no peer's count passes three, and the count of wrong values fits a `u32`.
pub run-new-IsBounded : (pin : Option Text) (cs : List Call) → IsBounded (run (new pin) cs)
unfolding new lookup
run-new-IsBounded pin cs =
    run-IsBounded (new pin) cs
      (record { table = (omega arith, tt, λ q f h. cc); counted = omega arith })
