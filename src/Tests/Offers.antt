-- ===== src/Tests/Offers.antt =====
-- server/handlers.rs: an offer of two files at a receiver that is free.
use localsend_rs.Base.{◌≡◌, ◌⊎◌, refl, none, some, [], ◌∷◌}
use localsend_rs.Error.{bytes}
use localsend_rs.Protocol.{PrepareUploadRequest, PrepareUploadResponse}
use localsend_rs.Server.State.{World, CrossCopyAuthorizedPrepareMetadata}
use localsend_rs.Server.Prepare.{await_decision, decide, reserve, install_placeholder}
use localsend_rs.Server.Prepare.Offers.{declined_clears}
use localsend_rs.Server.Prepare.Reservation.{Free, Holds, Refused, reserve_lem}
use localsend_rs.Server.Cancel.{handle_cancel}
use localsend_rs.Server.Cancel.Rights.{MayCancel, Ended, handle_cancel_ends}
use localsend_rs.Server.Lifetime.{stop, sweep}
use localsend_rs.Server.Lifetime.Sweeping.{Swept, sweep_removes}
use localsend_rs.Server.Protected.{ProtectedCall, handle_crosscopy_authorized_prepare}
use localsend_rs.Server.Protected.Owners
use localsend_rs.Server.Protected.Owners.{stop_overtakes}
use localsend_rs.Tests.Samples.{idle, offer, declines, receiving_world, fresh_at, alice, file_of}

abbrev first_only : PrepareUploadResponse
first_only = record { session_id = 100; files = (1, 10) ∷ [] }

-- Another peer's session is current when the declined request unwinds.
declined_clears_example :
    (await_decision
      (record declines { meanwhile = λ w. receiving_world })
      offer
      idle).0.current_session
    ≡ none
unfolding decide receiving_world
declined_clears_example =
    declined_clears (record declines { meanwhile = λ w. receiving_world }) offer idle refl refl

abbrev guarded : World
guarded = record idle {
  state = record (idle.state) {
    pin_gate = record { pin = some (bytes "1234"); failures = []; wrong_values = 0 };
  };
}

reserve_lem_example :
    (Free 0 idle
      × ((reserve (fresh_at 99) 7 0 offer idle).1 ≡ none)
      × Holds (fresh_at 99) 7 ((reserve (fresh_at 99) 7 0 offer idle).0))
    ⊎ Refused (fresh_at 99) 7 0 offer idle
reserve_lem_example = reserve_lem (fresh_at 99) 7 0 offer idle

abbrev awaiting : World
awaiting = install_placeholder (fresh_at 99) 7 0 offer idle

handle_cancel_ends_example :
    ((handle_cancel (some 100) 7 receiving_world).0.current_session
      ≡ receiving_world.current_session)
    ⊎ (MayCancel 7 receiving_world
        × Ended 100 receiving_world ((handle_cancel (some 100) 7 receiving_world).0))
handle_cancel_ends_example = handle_cancel_ends 100 7 receiving_world

abbrev metadata : CrossCopyAuthorizedPrepareMetadata
metadata = record { sender = alice; file_id = 1; file = file_of 1 (bytes "abc") 3 }

abbrev one_file : PrepareUploadRequest
one_file = record { info = alice; files = (1, file_of 1 (bytes "abc") 3) ∷ [] }

abbrev stopped_call : ProtectedCall
stopped_call = record {
  values = some (bytes "aaaaaaaaaaaaaaaaaaaaaaaaaaaaaaaaaaaaaaaaaaaaaaaaaaaaaaaaaaaaaaaa" ∷ []);
  owner = some 5;
  session_id = 200;
  token = 9;
  created = 0;
  meanwhile = λ w. stop w;
}

stop_overtakes_example :
    Owners.Refused (handle_crosscopy_authorized_prepare stopped_call one_file idle)
stop_overtakes_example = stop_overtakes stopped_call one_file idle idle refl refl

sweep_removes_example : Swept 400000000000 receiving_world (sweep 400000000000 receiving_world)
sweep_removes_example = sweep_removes 400000000000 receiving_world
