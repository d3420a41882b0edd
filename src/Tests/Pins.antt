-- ===== src/Tests/Pins.antt =====
-- server/pin.rs: a gate with a PIN, and its unit tests' scenarios.
use localsend_rs.Base.{◌≡◌, ◌↔◌, refl, true, false, none, some, [], ◌∷◌, arith, lookup, subst}
use localsend_rs.Error.{bytes}
use localsend_rs.Protocol.{Text}
use localsend_rs.Pin.{PinGate, new, check, ok, locked_out, constant_time_eq}
use localsend_rs.Pin.Compare.{IsBytes}
use localsend_rs.Pin.Bounds.{IsBounded, checks, sets, run, run-new-IsBounded}
use localsend_rs.Pin.Verdict.{is_locked, check-cleared_iff}
use localsend_rs.Pin.Guesses.{after_guesses, three_strikes}

abbrev pin : Text
pin = bytes "1234"

abbrev wrong : Text
wrong = bytes "0000"

abbrev gate : PinGate
gate = record { pin = some pin; failures = (9, (1, 5)) ∷ []; wrong_values = 1 }

three_strikes_example :
    (check
      (some pin)
      3
      20
      (after_guesses gate 3 (wrong, wrong, wrong) (1, 2, 3) (((some pin, 4, 1) ∷ []), [], []))).1
    ≡ locked_out
unfolding lookup constant_time_eq
three_strikes_example =
    three_strikes pin wrong wrong wrong 3 1 2 3 20 ((some pin, 4, 1) ∷ []) [] [] gate (some pin)
      refl refl refl refl refl (refl, tt) tt tt (omega arith) (omega arith)

run-new-IsBounded_example :
    IsBounded (run (new (some pin)) (checks (some wrong) 3 1 ∷ sets none ∷ []))
run-new-IsBounded_example = run-new-IsBounded (some pin) (checks (some wrong) 3 1 ∷ sets none ∷ [])

pin-IsBytes : IsBytes pin
pin-IsBytes = (omega arith, (omega arith, (omega arith, (omega arith, tt))))

given-IsBytes : (given : Text) → some pin ≡ some given → IsBytes given
given-IsBytes given e = subst IsBytes same pin-IsBytes
  where
    same : pin ≡ given
    same = cc

check-cleared_iff_example :
    ((check (some pin) 3 7 gate).1 ≡ ok true)
    ↔ ((some pin ≡ some pin) × (is_locked 3 7 gate.failures ≡ false))
check-cleared_iff_example = check-cleared_iff (some pin) 3 7 gate pin refl pin-IsBytes given-IsBytes
