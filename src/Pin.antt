-- ===== src/Pin.antt =====
-- server/pin.rs: the receiver's PIN gate. A call reads the clock once; the source reads it again
-- under the same lock.
pub mod Compare
pub mod Table
pub mod Bounds
pub mod Verdict
pub mod Strikes
pub mod Pressure
pub mod Guesses
use Prim.Native.Nat.{bit_or, bit_xor}
use localsend_rs.Base.{
  ℕ, suc, ◌+◌, ◌-◌, ◌%◌, Bool, true, false, not, Option, none, some, [], ◌∷◌, ◌==◌, ltb, leb,
  if◌then◌else◌, Map, lookup, insert, remove, contains_key, length, retain, is_some, u32_max,
  saturating_add,
}
use localsend_rs.Protocol.{Text, IpAddr, Instant, Duration, from_secs}

abbrev pub max_failures : ℕ
max_failures = 3

abbrev pub lockout : Duration
lockout = from_secs 300

abbrev pub max_tracked_peers : ℕ
max_tracked_peers = 1024

abbrev pub guess_pressure : ℕ
guess_pressure = 10

pub data PinVerdict : Type 0 where
  ok : Bool → PinVerdict
  unauthorized locked_out : PinVerdict

-- How often a peer failed, and when it last did.
abbrev pub Failure : Type 0
Failure = ℕ × Instant

pub record PinGate : Type 0 where
  pub pin : Option Text
  pub failures : Map Failure
  pub wrong_values : ℕ

unfoldable pub new : Option Text → PinGate
new pin = record { pin = pin; failures = []; wrong_values = 0 }

pub set : Option Text → PinGate → PinGate
set pin g = record { pin = pin; failures = []; wrong_values = 0 }

pub under_guessing_pressure : PinGate → Bool
under_guessing_pressure g = leb guess_pressure g.wrong_values

abbrev pub required : PinGate → Bool
required g = is_some g.pin

abbrev pub tracked_peers : PinGate → ℕ
tracked_peers g = length g.failures

-- `a.iter().zip(b).fold(acc, |acc, (x, y)| acc | (x ^ y))`.
pub fold_diff : ℕ → Text → Text → ℕ
fold_diff acc (x ∷ a) (y ∷ b) = fold_diff (bit_or acc (bit_xor x y)) a b
fold_diff acc [] b = acc
fold_diff acc a [] = acc

unfoldable pub constant_time_eq : Text → Text → Bool
unfolding fold_diff
constant_time_eq a b = if not (length a == length b) then false else fold_diff 0 a b == 0

-- `iter().min_by_key(at)`: the first of the oldest entries.
pub oldest : Map Failure → Option (IpAddr × Instant)
oldest [] = none
oldest ((peer, (count, at)) ∷ m) = elim (oldest m) [
  | none ↦ some (peer, at)
  | some (p, t) ↦ if ltb t at then some (p, t) else some (peer, at)
]

abbrev pub is_fresh : Instant → IpAddr × Failure → Bool
is_fresh now (_, (_, at)) = ltb (now - at) lockout

pub evict_oldest : Map Failure → Map Failure
unfolding oldest
evict_oldest m = elim (oldest m) [ none ↦ m | some (p, _) ↦ remove p m ]

pub make_room : Instant → Map Failure → Map Failure
unfolding evict_oldest
make_room now m =
    if ltb (length m) max_tracked_peers
    then m
    else let swept = retain (is_fresh now) m in
      if ltb (length swept) max_tracked_peers then swept else evict_oldest swept

-- `entry(peer).or_insert((0, now))`, then the count goes up and the time is now.
pub record_failure : IpAddr → Instant → Map Failure → Map Failure
record_failure peer now m = elim (lookup peer m) [
  | none ↦ insert peer (1, now) m
  | some (count, at) ↦ insert peer ((count + 1) % suc u32_max, now) m
]

abbrev pub is_exhausted : Failure → Bool
is_exhausted (count, at) = leb max_failures count

-- The lockout at the head of `check`: `none` means locked out, otherwise the table goes on.
pub unlock : IpAddr → Instant → Map Failure → Option (Map Failure)
unlock peer now m = elim (lookup peer m) [
  | none ↦ some m
  | some (count, at) ↦
      if leb max_failures count
      then (if ltb (now - at) lockout then none else some (remove peer m))
      else some m
]

pub fail : IpAddr → Instant → PinGate → PinGate
unfolding make_room record_failure
fail peer now g =
    let room = if contains_key peer g.failures then g.failures else make_room now g.failures in
    record g {
      failures = record_failure peer now room;
      wrong_values = saturating_add u32_max g.wrong_values 1;
    }

pub compare_pin : Text → Text → IpAddr → Instant → PinGate → PinGate × PinVerdict
unfolding fail constant_time_eq
compare_pin provided expected peer now g =
    if constant_time_eq provided expected
    then (record g { failures = remove peer g.failures; wrong_values = 0 }, ok true)
    else (fail peer now g, unauthorized)

pub present : Option Text → Text → IpAddr → Instant → PinGate → PinGate × PinVerdict
unfolding compare_pin
present none expected peer now g = (g, unauthorized)
present (some provided) expected peer now g = compare_pin provided expected peer now g

unfoldable pub check : Option Text → IpAddr → Instant → PinGate → PinGate × PinVerdict
unfolding unlock present
check provided peer now g = elim g.pin [
  | none ↦ (g, ok false)
  | some expected ↦ elim (unlock peer now g.failures) [
    | none ↦ (g, locked_out)
    | some failures' ↦ present provided expected peer now (record g { failures = failures' })
  ]
]
