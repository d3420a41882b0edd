-- ===== src/Pin/Strikes.antt =====
-- server/pin.rs: how failures add up to a lockout while other peers send requests in between.
use localsend_rs.Base.{
  ℕ, suc, ◌+◌, ◌%◌, ◌<◌, ◌≤◌, ◌≡◌, refl, false, Option, none, some, List, [], ◌∷◌, ◌==◌, Map,
  lookup, remove, length, arith, ◌⊎◌, inl, inr, Bool-cases, Option-cases, length-remove-le,
  length-insert-le, lookup-insert, All, lookup-remove, u32_max, contains_key, ◌∙◌,
}
use localsend_rs.Protocol.{Text, IpAddr, Instant}
use localsend_rs.Pin.{
  PinGate, Failure, ok, locked_out, max_tracked_peers, make_room, record_failure, unlock, fail,
  compare_pin, present, check, constant_time_eq,
}
use localsend_rs.Pin.Bounds.{unlock-cases}

-- A request that presents no PIN leaves the count of wrong values and the entry of every peer as
-- they were, but for its own lockout, which it clears where that is over.
pub silent_request :
    (p q : IpAddr) (now : Instant) (g : PinGate)
    → let g' = (check none p now g).0 in
      (g'.wrong_values ≡ g.wrong_values)
      × (g'.pin ≡ g.pin)
      × ((lookup q g'.failures ≡ lookup q g.failures) ⊎ ((q ≡ p) × (lookup q g'.failures ≡ none)))
unfolding check present
silent_request p q now g = elim (Option-cases g.pin) [
  | inl e ↦ rw (e, check) (refl, e, inl refl)
  | inr (expected, e) ↦ elim (unlock-cases p now g.failures) [
    | inl locked ↦ rw (e, check) (rw (locked, check) (refl, e, inl refl))
    | inr (inl (on, _)) ↦ rw (e, check) (rw (on, check) (refl, e, inl refl))
    | inr (inr on) ↦
        rw (e, check) (rw (on, check) (refl, e, ground (arith, lookup-remove p q g.failures)))
  ]
]

-- What `check` keeps of the gate where the table has room for one more peer.
record Steady (q : IpAddr) (g' g : PinGate) : Type 0 where
  same_pin : g'.pin ≡ g.pin
  same_entry : lookup q g'.failures ≡ lookup q g.failures
  grown : length g'.failures ≤ suc (length g.failures)

record_failure_lem :
    (p q : IpAddr) (now : Instant) (m : Map Failure)
    → (p == q) ≡ false
    → (lookup q (record_failure p now m) ≡ lookup q m)
      × (length (record_failure p now m) ≤ suc (length m))
unfolding record_failure
record_failure_lem p q now m ne = elim (Option-cases (lookup p m)) [
  | inl e ↦
      rw (e, record_failure)
        (ground (arith, lookup-insert p q (1, now) m), length-insert-le p (1, now) m)
  | inr ((c, at), e) ↦
      let next : Failure = ((c + 1) % suc u32_max, now) in
      rw (e, record_failure) (ground (arith, lookup-insert p q next m), length-insert-le p next m)
]

pub make_room_below :
    (now : Instant) (m : Map Failure) → length m < max_tracked_peers → make_room now m ≡ m
unfolding make_room
make_room_below now m h = ground arith

fail-Steady :
    (p q : IpAddr) (now : Instant) (g : PinGate)
    → (p == q) ≡ false
    → length g.failures < max_tracked_peers
    → Steady q (fail p now g) g
unfolding fail
fail-Steady p q now g ne room = elim (Bool-cases (contains_key p g.failures)) [
  | inl old ↦
      rw (old, fail)
        (record {
          same_pin = refl;
          same_entry = (record_failure_lem p q now g.failures ne).0;
          grown = (record_failure_lem p q now g.failures ne).1;
        })
  | inr fresh ↦
      rw (fresh, fail, make_room_below now g.failures room)
        (record {
          same_pin = refl;
          same_entry = (record_failure_lem p q now g.failures ne).0;
          grown = (record_failure_lem p q now g.failures ne).1;
        })
]

present-Steady :
    (provided : Option Text) (expected : Text) (p q : IpAddr) (now : Instant) (g : PinGate)
    → (p == q) ≡ false
    → length g.failures < max_tracked_peers
    → Steady q (present provided expected p now g).0 g
unfolding present compare_pin
present-Steady none expected p q now g ne room = record {
  same_pin = refl;
  same_entry = refl;
  grown = omega arith;
}
present-Steady (some provided) expected p q now g ne room =
    elim (Bool-cases (constant_time_eq provided expected)) [
      | inl same ↦
          rw (same, compare_pin)
            (record {
              same_pin = refl;
              same_entry = ground (arith, lookup-remove p q g.failures);
              grown = omega (arith, length-remove-le p g.failures);
            })
      | inr other ↦ rw (other, compare_pin) (fail-Steady p q now g ne room)
    ]

pub check_open :
    (provided : Option Text) (p : IpAddr) (now : Instant) (g : PinGate)
    → g.pin ≡ none
    → check provided p now g ≡ (g, ok false)
unfolding check
check_open provided p now g e = ground arith

pub check_locked :
    (provided : Option Text) (expected : Text) (p : IpAddr) (now : Instant) (g : PinGate)
    → g.pin ≡ some expected
    → unlock p now g.failures ≡ none
    → check provided p now g ≡ (g, locked_out)
unfolding check
check_locked provided expected p now g e locked = ground arith

pub check_on :
    (provided : Option Text) (expected : Text) (p : IpAddr) (now : Instant) (g : PinGate)
    (m : Map Failure)
    → g.pin ≡ some expected
    → unlock p now g.failures ≡ some m
    → check provided p now g ≡ present provided expected p now (record g { failures = m })
unfolding check
check_on provided expected p now g m e on = ground arith

check-Steady :
    (provided : Option Text) (p q : IpAddr) (now : Instant) (g : PinGate)
    → (p == q) ≡ false
    → length g.failures < max_tracked_peers
    → Steady q (check provided p now g).0 g
unfolding check
check-Steady provided p q now g ne room = elim (Option-cases g.pin) [
  | inl e ↦ rw (check_open provided p now g e) still
  | inr (expected, e) ↦ elim (unlock-cases p now g.failures) [
    | inl locked ↦ rw (check_locked provided expected p now g e locked) still
    | inr (inl (on, _)) ↦
        rw (check_on provided expected p now g g.failures e on)
          (present-Steady provided expected p q now g ne room)
    | inr (inr on) ↦
        let g' : PinGate = record g { failures = remove p g.failures } in
        let s : Steady q (present provided expected p now g').0 g' =
          present-Steady provided expected p q now g' ne
            (omega (arith, length-remove-le p g.failures)) in
        rw (check_on provided expected p now g (remove p g.failures) e on) (record {
          same_pin = s.same_pin;
          same_entry = s.same_entry ∙ ground (arith, lookup-remove p q g.failures);
          grown = omega (arith, s.grown, length-remove-le p g.failures);
        })
  ]
]
  where
    still : Steady q g g
    still = record { same_pin = refl; same_entry = refl; grown = omega arith }

-- A request: the PIN that it presents, the peer that sends it, and when.
abbrev pub Request : Type 0
Request = Option Text × IpAddr × Instant

unfoldable pub serve : PinGate → List Request → PinGate
serve g [] = g
serve g ((provided, p, now) ∷ rs) = serve (check provided p now g).0 rs

abbrev pub IsFromOther : IpAddr → Request → Type 0
IsFromOther q (_, p, _) = (p == q) ≡ false

pub record Undisturbed (q : IpAddr) (g' g : PinGate) (n : ℕ) : Type 0 where
  pub same_pin : g'.pin ≡ g.pin
  pub same_entry : lookup q g'.failures ≡ lookup q g.failures
  pub grown : length g'.failures ≤ length g.failures + n

pub serve_others :
    (q : IpAddr) (g : PinGate) (rs : List Request)
    → All (IsFromOther q) rs
    → length g.failures + length rs ≤ max_tracked_peers
    → Undisturbed q (serve g rs) g (length rs)
unfolding serve
serve_others q g [] others room = record { same_pin = refl; same_entry = refl; grown = omega arith }
serve_others q g ((provided, p, now) ∷ rs) others room =
    let s : Steady q (check provided p now g).0 g =
      check-Steady provided p q now g others.0 (omega arith) in
    let rest : Undisturbed q (serve (check provided p now g).0 rs) (check provided p now g).0
        (length rs) =
      serve_others q (check provided p now g).0 rs others.1 (omega (arith, s.grown)) in
    record {
      same_pin = rest.same_pin ∙ s.same_pin;
      same_entry = rest.same_entry ∙ s.same_entry;
      grown = omega (arith, rest.grown, s.grown);
    }

-- The strikes that a peer has against it.
abbrev pub strikes : IpAddr → PinGate → ℕ
strikes q g = elim (lookup q g.failures) [ none ↦ 0 | some f ↦ f.0 ]
