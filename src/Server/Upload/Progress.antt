-- ===== src/Server/Upload/Progress.antt =====
-- server/handlers.rs: what a session's progress counter holds after an addition and its rollback.
use localsend_rs.Base.{
  List, [], ◌∷◌, ℕ, ◌+◌, ◌-◌, ◌≤◌, ◌≡◌, lookup-insert, leb, if◌then◌else◌, u64_max, arith,
}
use localsend_rs.Server.State.{World}
use localsend_rs.Server.Upload.{
  ReceiveProgressContext, counter, set_counter, emit, added, add, rollback,
}

counter-set_counter : (address n : ℕ) (w : World) → counter address (set_counter address n w) ≡ n
unfolding counter set_counter
counter-set_counter address n w = ground (arith, lookup-insert address address n w.counters)

counter-add :
    (p : ReceiveProgressContext) (amount : ℕ) (w : World)
    → counter p.received_bytes (add p amount w)
      ≡ added p.total_bytes (counter p.received_bytes w) amount
unfolding add emit
counter-add p amount w =
    counter-set_counter p.received_bytes (added p.total_bytes (counter p.received_bytes w) amount) w

counter-rollback :
    (p : ReceiveProgressContext) (amount : ℕ) (w : World)
    → counter p.received_bytes (rollback p amount w) ≡ counter p.received_bytes w - amount
unfolding rollback emit
counter-rollback p amount w =
    counter-set_counter p.received_bytes (counter p.received_bytes w - amount) w

-- What the uploads of a session report, in the order in which it reaches the counter.
pub data Report : Type 0 where
  adds takes_back : ℕ → Report

pub run_reports : ReceiveProgressContext → List Report → World → World
run_reports p [] w = w
run_reports p (adds amount ∷ reports) w = run_reports p reports (add p amount w)
run_reports p (takes_back amount ∷ reports) w = run_reports p reports (rollback p amount w)

-- Whatever the uploads of a session add and take back, in whatever order, its counter never passes
-- the session's total.
pub run_reports_bounded :
    (p : ReceiveProgressContext) (reports : List Report) (w : World)
    → counter p.received_bytes w ≤ p.total_bytes
    → counter p.received_bytes (run_reports p reports w) ≤ p.total_bytes
unfolding run_reports
run_reports_bounded p [] w small = small
run_reports_bounded p (adds amount ∷ reports) w small =
    run_reports_bounded p reports (add p amount w) (ground (arith, counter-add p amount w))
run_reports_bounded p (takes_back amount ∷ reports) w small =
    run_reports_bounded p reports (rollback p amount w)
      (ground (arith, counter-rollback p amount w))

-- Where the total fits a `u64`, a rollback of what was added gives the old counter back if the total
-- was not exceeded; otherwise it leaves the total less the amount.
pub rollback-add :
    (p : ReceiveProgressContext) (amount : ℕ) (w : World)
    → p.total_bytes ≤ u64_max
    → counter p.received_bytes (rollback p amount (add p amount w)) ≡ (
        if leb (counter p.received_bytes w + amount) p.total_bytes
        then counter p.received_bytes w
        else p.total_bytes - amount)
rollback-add p amount w small =
    ground (arith, counter-rollback p amount (add p amount w), counter-add p amount w)
