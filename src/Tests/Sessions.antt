-- ===== src/Tests/Sessions.antt =====
-- core/session.rs: a session of two files under a few operations.
use localsend_rs.Base.{
  ◌≡◌, ◌↔◌, ◌≤◌, ◌+◌, ◌||◌, ◌==◌, refl, true, false, List, [], ◌∷◌, contains, contains_key, count,
  lookup, insert,
}
use localsend_rs.Error.{bytes}
use localsend_rs.Protocol.{FileId}
use localsend_rs.Session.{new, mark_received, try_cancel_receives, begin_receive, begin_publication}
use localsend_rs.Session.Phases.{slot_of}
use localsend_rs.Session.Holders.{
  Event, claims, publishes_file, finishes, cancels, step, run, opened, claim, publish, one_holder,
}
use localsend_rs.Session.Holders.Closed.{cancelled_publishes_nothing, publishing_blocks_cancel}
use localsend_rs.Session.Received.{mark_all, complete_iff}
use localsend_rs.Tests.Samples.{two_files, draw}

-- Two uploads claim the first file, one of them publishes it.
abbrev race : List Event
race = claims 1 ∷ claims 1 ∷ publishes_file 1 ∷ finishes 1 ∷ []

one_holder_example :
    (count 1 (run (opened two_files) race).leases + count 1 (run (opened two_files) race).permits
      ≤ 1)
    × (count 1 (run (opened two_files) race).finished ≤ 1)
one_holder_example = one_holder two_files race 1

cancelled_publishes_nothing_example :
    (run
      (step (run (opened two_files) (claims 1 ∷ [])) cancels)
      (publishes_file 1 ∷ finishes 1 ∷ [])).finished
    ≡ (run (opened two_files) (claims 1 ∷ [])).finished
unfolding run opened try_cancel_receives step claim begin_receive lookup insert
cancelled_publishes_nothing_example =
    cancelled_publishes_nothing two_files (claims 1 ∷ []) (publishes_file 1 ∷ finishes 1 ∷ []) refl

publishing_blocks_cancel_example :
    let lc = (run (opened two_files) (claims 1 ∷ publishes_file 1 ∷ [])).lifecycle in
    ((try_cancel_receives lc).1 ≡ false) × (slot_of 2 (try_cancel_receives lc).0 ≡ slot_of 2 lc)
unfolding run opened step claim begin_receive lookup publish begin_publication insert
publishing_blocks_cancel_example =
    publishing_blocks_cancel two_files (claims 1 ∷ publishes_file 1 ∷ []) 2 1 refl

complete_iff_example :
    let s = mark_all 5 (1 ∷ 1 ∷ 7 ∷ []) (new 100 draw 100 5 (bytes "alice") two_files).0 in
    ((mark_received 5 2 s).1 ≡ true) ↔ (
      (contains_key 2 two_files ≡ true)
      × ((g : FileId)
          → contains_key g two_files ≡ true
          → (2 == g || contains (1 ∷ 1 ∷ 7 ∷ []) g) ≡ true))
complete_iff_example =
    complete_iff 100 draw 100 5 (bytes "alice") two_files (1 ∷ 1 ∷ 7 ∷ []) 2 (refl, (refl, tt))
