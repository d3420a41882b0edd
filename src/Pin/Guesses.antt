-- ===== src/Pin/Guesses.antt =====
-- server/pin.rs: three wrong values lock a peer out.
use localsend_rs.Base.{
  ℕ, suc, ◌+◌, ◌-◌, ◌%◌, ◌<◌, ◌≤◌, ◌≡◌, false, Option, none, some, List, if◌then◌else◌, Map, lookup,
  length, arith, inl, inr, Option-cases, length-insert-le, lookup-insert, All, u32_max,
  contains_key, ◌∙◌,
}
use localsend_rs.Protocol.{Text, IpAddr, Instant}
use localsend_rs.Pin.{
  PinGate, Failure, locked_out, max_tracked_peers, max_failures, lockout, make_room, record_failure,
  unlock, fail, compare_pin, present, check, constant_time_eq,
}
use localsend_rs.Pin.Verdict.{check-locked_out_iff}
use localsend_rs.Pin.Strikes.{
  strikes, make_room_below, check_on, Undisturbed, serve_others, serve, Request, IsFromOther,
}

unlock_few :
    (q : IpAddr) (now : Instant) (g : PinGate)
    → strikes q g < max_failures
    → unlock q now g.failures ≡ some g.failures
unfolding unlock
unlock_few q now g h = ground arith

-- A gate after a wrong value from `q`, which then has `n` strikes.
pub record Struck (q : IpAddr) (n : ℕ) (now : Instant) (expected : Text) (g' g : PinGate)
    : Type 0 where
  pub same_pin : g'.pin ≡ some expected
  pub entry : lookup q g'.failures ≡ some (n, now)
  pub grown : length g'.failures ≤ suc (length g.failures)

record_failure_self :
    (q : IpAddr) (now : Instant) (g : PinGate)
    → strikes q g < max_failures
    → (lookup q (record_failure q now g.failures) ≡ some (strikes q g + 1, now))
      × (length (record_failure q now g.failures) ≤ suc (length g.failures))
unfolding record_failure
record_failure_self q now g h = elim (Option-cases (lookup q g.failures)) [
  | inl e ↦
      rw (e, record_failure)
        (
          ground (arith, lookup-insert q q (1, now) g.failures),
          length-insert-le q (1, now) g.failures,
        )
  | inr ((c, at), e) ↦
      let next : Failure = ((c + 1) % suc u32_max, now) in
      rw (e, record_failure)
        (ground (arith, lookup-insert q q next g.failures), length-insert-le q next g.failures)
]

room_kept :
    (q : IpAddr) (now : Instant) (m : Map Failure)
    → length m < max_tracked_peers
    → (if contains_key q m then m else make_room now m) ≡ m
room_kept q now m h = ground (arith, make_room_below now m h)

-- A wrong value from a peer that has strikes left is one more strike, where the table has room.
wrong_guess :
    (given expected : Text) (q : IpAddr) (now : Instant) (g : PinGate)
    → g.pin ≡ some expected
    → constant_time_eq given expected ≡ false
    → strikes q g < max_failures
    → length g.failures < max_tracked_peers
    → Struck q (strikes q g + 1) now expected (check (some given) q now g).0 g
unfolding present compare_pin fail
wrong_guess given expected q now g e wrong few room =
    rw (check_on (some given) expected q now g g.failures e (unlock_few q now g few)) (
      rw (wrong, present, compare_pin)
        (rw (room_kept q now g.failures room, fail)
          (record {
            same_pin = e;
            entry = (record_failure_self q now g few).0;
            grown = (record_failure_self q now g few).1;
          })))

-- A peer sends a wrong value, and other peers any requests after it.
struck_then_others :
    (given expected : Text) (q : IpAddr) (now : Instant) (g : PinGate) (rs : List Request)
    → g.pin ≡ some expected
    → constant_time_eq given expected ≡ false
    → strikes q g < max_failures
    → All (IsFromOther q) rs
    → length g.failures + suc (length rs) ≤ max_tracked_peers
    → let g' = serve (check (some given) q now g).0 rs in
      (g'.pin ≡ some expected)
      × (lookup q g'.failures ≡ some (strikes q g + 1, now))
      × (length g'.failures ≤ length g.failures + suc (length rs))
struck_then_others given expected q now g rs e wrong few others room =
    let s : Struck q (strikes q g + 1) now expected (check (some given) q now g).0 g =
      wrong_guess given expected q now g e wrong few (omega arith) in
    let u : Undisturbed q (serve (check (some given) q now g).0 rs) (check (some given) q now g).0
        (length rs) =
      serve_others q (check (some given) q now g).0 rs others (omega (arith, s.grown)) in
    (u.same_pin ∙ s.same_pin, u.same_entry ∙ s.entry, omega (arith, u.grown, s.grown))

-- The gate after a peer's three values at three times, other peers' requests after each.
pub after_guesses :
    PinGate
    → IpAddr
    → Text × Text × Text
    → Instant × Instant × Instant
    → List Request × List Request × List Request
    → PinGate
after_guesses g q (v1, v2, v3) (t1, t2, t3) (r1, r2, r3) =
    let g1 = serve (check (some v1) q t1 g).0 r1 in
    let g2 = serve (check (some v2) q t2 g1).0 r2 in serve (check (some v3) q t3 g2).0 r3

-- Three wrong values of a peer without strikes, at any times and with any requests of other peers
-- between them and after them that the table has room for, lock the peer out: whatever it presents
-- within the lockout after the third, the right PIN too, is refused.
pub three_strikes :
    (expected v1 v2 v3 : Text) (q : IpAddr) (t1 t2 t3 t : Instant) (r1 r2 r3 : List Request)
    (g : PinGate) (provided : Option Text)
    → g.pin ≡ some expected
    → lookup q g.failures ≡ none
    → constant_time_eq v1 expected ≡ false
    → constant_time_eq v2 expected ≡ false
    → constant_time_eq v3 expected ≡ false
    → All (IsFromOther q) r1
    → All (IsFromOther q) r2
    → All (IsFromOther q) r3
    → length g.failures + length r1 + length r2 + length r3 + 3 ≤ max_tracked_peers
    → t - t3 < lockout
    → (check provided q t (after_guesses g q (v1, v2, v3) (t1, t2, t3) (r1, r2, r3))).1 ≡ locked_out
unfolding after_guesses
three_strikes expected v1 v2 v3 q t1 t2 t3 t r1 r2 r3 g provided e fresh w1 w2 w3 o1 o2 o3 room
      soon =
    let g1 : PinGate = serve (check (some v1) q t1 g).0 r1 in
    let (e1, l1, n1) =
      struck_then_others v1 expected q t1 g r1 e w1 (ground arith) o1 (omega arith) in
    let c1 : strikes q g1 ≡ 1 = ground arith in
    let g2 : PinGate = serve (check (some v2) q t2 g1).0 r2 in
    let (e2, l2, n2) =
      struck_then_others v2 expected q t2 g1 r2 e1 w2 (omega arith) o2 (omega arith) in
    let c2 : strikes q g2 ≡ 2 = ground arith in
    let g3 : PinGate = serve (check (some v3) q t3 g2).0 r3 in
    let (e3, l3, n3) =
      struck_then_others v3 expected q t3 g2 r3 e2 w3 (omega arith) o3 (omega arith) in
    (check-locked_out_iff provided q t g3 expected e3).0.1 (ground arith)
