-- ===== src/Pin/Pressure.antt =====
-- server/pin.rs: when the gate reports that somebody is working through PIN values.
use localsend_rs.Base.{
  ℕ, ◌+◌, ◌≡◌, true, false, Option, none, some, List, [], ◌∷◌, leb, remove, arith, inl, inr,
  Option-cases, u32_max, min,
}
use localsend_rs.Protocol.{Text, IpAddr, Instant}
use localsend_rs.Pin.{
  PinGate, PinVerdict, ok, unauthorized, locked_out, fail, compare_pin, present, check,
  under_guessing_pressure,
}
use localsend_rs.Pin.Bounds.{unlock-cases}
use localsend_rs.Pin.Strikes.{Request, serve, check_open, check_locked, check_on}

-- What one request adds to the run of wrong values, read off its verdict: a cleared request ends
-- the run, a value that was refused lengthens it, any other request leaves it.
abbrev pub continue_run : Option Text → PinVerdict → ℕ → ℕ
continue_run provided (ok true) n = 0
continue_run (some _) unauthorized n = n + 1
continue_run _ _ n = n

-- The length of the run of wrong values after requests.
pub guess_run : PinGate → List Request → ℕ → ℕ
guess_run g [] n = n
guess_run g ((provided, p, now) ∷ rs) n =
    guess_run (check provided p now g).0 rs (continue_run provided (check provided p now g).1 n)

present_run :
    (provided : Option Text) (expected : Text) (p : IpAddr) (now : Instant) (g : PinGate) (n : ℕ)
    → g.wrong_values ≡ min n u32_max
    → let (g', v) = present provided expected p now g in
      g'.wrong_values ≡ min (continue_run provided v n) u32_max
unfolding present compare_pin fail
present_run none expected p now g n h = h
present_run (some provided) expected p now g n h = ground arith

check_run :
    (provided : Option Text) (p : IpAddr) (now : Instant) (g : PinGate) (n : ℕ)
    → g.wrong_values ≡ min n u32_max
    → (check provided p now g).0.wrong_values
      ≡ min (continue_run provided (check provided p now g).1 n) u32_max
check_run provided p now g n h = elim (Option-cases g.pin) [
  | inl e ↦ rw (check_open provided p now g e) (keeps provided)
  | inr (expected, e) ↦ elim (unlock-cases p now g.failures) [
    | inl locked ↦ rw (check_locked provided expected p now g e locked) (refuses provided)
    | inr (inl (on, _)) ↦
        rw (check_on provided expected p now g g.failures e on)
          (present_run provided expected p now g n h)
    | inr (inr on) ↦
        rw (check_on provided expected p now g (remove p g.failures) e on)
          (present_run provided expected p now (record g { failures = remove p g.failures }) n h)
  ]
]
  where
    keeps : (o : Option Text) → g.wrong_values ≡ min (continue_run o (ok false) n) u32_max
    keeps none = h
    keeps (some _) = h

    refuses : (o : Option Text) → g.wrong_values ≡ min (continue_run o locked_out n) u32_max
    refuses none = h
    refuses (some _) = h

serve_run :
    (g : PinGate) (rs : List Request) (n : ℕ)
    → g.wrong_values ≡ min n u32_max
    → (serve g rs).wrong_values ≡ min (guess_run g rs n) u32_max
unfolding serve guess_run
serve_run g [] n h = h
serve_run g ((provided, p, now) ∷ rs) n h =
    serve_run (check provided p now g).0 rs (continue_run provided (check provided p now g).1 n)
      (check_run provided p now g n h)

-- After any requests to a gate that has seen no wrong value, from whatever addresses, it reports
-- pressure exactly if ten or more values were refused since the last request that was cleared.
-- Requests that present no PIN, or that meet a lockout, do not count.
pressure_iff :
    (g : PinGate) (rs : List Request)
    → g.wrong_values ≡ 0
    → under_guessing_pressure (serve g rs) ≡ leb 10 (guess_run g rs 0)
unfolding under_guessing_pressure
pressure_iff g rs h = ground (arith, serve_run g rs 0)
