-- ===== src/Pin/Verdict.antt =====
-- server/pin.rs: which verdict a request gets, and what it leaves of the gate.
use localsend_rs.Base.{
  ◌-◌, ◌≡◌, ◌↔◌, refl, Bool, true, false, ◌&&◌, Option, none, some, ltb, leb, Map, lookup, arith,
  is_some_and,
}
use localsend_rs.Protocol.{Text, IpAddr, Instant}
use localsend_rs.Pin.{
  PinGate, Failure, ok, locked_out, max_failures, lockout, unlock, compare_pin, present, check,
}
use localsend_rs.Pin.Compare.{IsBytes, constant_time_eq_iff}

-- Whether the table holds a peer locked out: three failures, the last within the lockout.
abbrev pub is_locked : IpAddr → Instant → Map Failure → Bool
is_locked p now m = is_some_and (lookup p m) (λ f. leb max_failures f.0 && ltb (now - f.1) lockout)

pub unlock-none_iff :
    (p : IpAddr) (now : Instant) (m : Map Failure)
    → (unlock p now m ≡ none) ↔ (is_locked p now m ≡ true)
unfolding unlock
unlock-none_iff p now m = ground arith

-- With a PIN, a request is refused as locked out exactly while the table says so, whatever PIN it
-- presents, and such a request changes nothing of the gate.
pub check-locked_out_iff :
    (provided : Option Text) (p : IpAddr) (now : Instant) (g : PinGate) (expected : Text)
    → g.pin ≡ some expected
    → (((check provided p now g).1 ≡ locked_out) ↔ (is_locked p now g.failures ≡ true))
      × (is_locked p now g.failures ≡ true → (check provided p now g).0 ≡ g)
unfolding check present compare_pin
check-locked_out_iff provided p now g expected e = ground (arith, unlock-none_iff p now g.failures)

-- With a PIN, a request is cleared exactly if it presents that PIN and its peer is not locked out.
pub check-cleared_iff :
    (provided : Option Text) (p : IpAddr) (now : Instant) (g : PinGate) (expected : Text)
    → g.pin ≡ some expected
    → IsBytes expected
    → ((given : Text) → provided ≡ some given → IsBytes given)
    → ((check provided p now g).1 ≡ ok true)
      ↔ ((provided ≡ some expected) × (is_locked p now g.failures ≡ false))
unfolding check present compare_pin
check-cleared_iff none p now g expected e be bp = ground (arith, unlock-none_iff p now g.failures)
check-cleared_iff (some given) p now g expected e be bp = ground (
  arith,
  unlock-none_iff p now g.failures,
  constant_time_eq_iff given expected (bp given refl) be,
)
