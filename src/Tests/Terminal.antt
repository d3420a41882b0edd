-- ===== src/Tests/Terminal.antt =====
-- tui/app.rs: a message whose receiver wants a PIN.
use localsend_rs.Base.{false, true, ◌≡◌, refl, none, some, List, [], ◌∷◌, ◌++◌}
use localsend_rs.Error.{bytes, invalid_pin}
use localsend_rs.Protocol.{Text}
use localsend_rs.Tui.Send.{
  file, text, KeyCode, enter, esc, enter_file_path, char, SendUpdate, progress, finished, needs_pin,
  App, Task, Files, Failure, local, pin_entry, enter_message, select_device, poll_send_updates,
  maybe_open_pin_prompt, spawn_text_send, send_update_from_result, handle_pin_key,
}
use localsend_rs.Tui.Send.Updates.{spawn, IsOver}
use localsend_rs.Tui.Send.Ends.{with_pin, poll_send_updates-IsOver, handle_pin_key-resends}
use localsend_rs.Tui.Send.Keys.{handle_send_file_key}
use localsend_rs.Tui.Send.Keys.Cancels.{drawn, handle_send_file_key-cancels}
use localsend_rs.Tests.Samples.{alice}

abbrev files : Files
files = record { exists = λ path. false; file_name = λ path. none }

abbrev typed : KeyCode → Text → Text
typed (char c) input = input ++ c ∷ []
typed key input = input

abbrev app : App
app = record {
  popup = none;
  send_text = record {
    stage = enter_message;
    selected_device = some alice;
    input = bytes "hello";
    is_sending = false;
    selected = some 0;
  };
  send_file = record {
    stage = select_device;
    selected_device = none;
    input = [];
    is_sending = false;
    progress = (0, 1);
    current_file = none;
    selected = none;
  };
  status_message = none;
  send_generation = 18446744073709551615;
  pending_pin_kind = none;
  dirty = false;
}

abbrev task : Task
task = record {
  generation = 0;
  kind = text;
  target = alice;
  content = bytes "hello";
  label = bytes "message";
  pin = none;
}

started : (spawn files text none app).1 ≡ some task
unfolding spawn_text_send
started = refl

-- The end of the send that was cancelled before, and some progress.
abbrev earlier : List SendUpdate
earlier = finished 18446744073709551615 text (bytes "message") none ∷ progress 0 1 5 ∷ []

abbrev print : Failure → Text
print e = bytes "wrong PIN"

poll_send_updates-IsOver_example : IsOver print text task.label (some (local invalid_pin)) app (
    poll_send_updates
      (earlier ++ send_update_from_result print 0 text task.label (some (local invalid_pin)) ∷ [])
      (spawn files text none app).0)
poll_send_updates-IsOver_example =
    poll_send_updates-IsOver files print text none app task earlier (some (local invalid_pin))
      started (refl, (tt, tt))

handle_pin_key-resends_example :
    let prompted =
      maybe_open_pin_prompt
        (poll_send_updates (earlier ++ needs_pin 0 text ∷ []) (spawn files text none app).0) in
    (prompted.popup ≡ some (pin_entry []))
    × ((handle_pin_key files typed (bytes "1234") enter prompted).1
        ≡ some (with_pin (bytes "1234") task))
handle_pin_key-resends_example =
    handle_pin_key-resends files typed text none app task earlier (bytes "1234") started refl
      (refl, (tt, tt)) refl

abbrev uploading : App
uploading = record app {
  send_file = record {
    stage = enter_file_path;
    selected_device = some alice;
    input = bytes "a.txt";
    is_sending = true;
    progress = (1, 5);
    current_file = some (bytes "a.txt");
    selected = some 0;
  };
}

-- The cancelled upload is asked for a PIN after all.
abbrev late : List SendUpdate
late = progress 18446744073709551615 2 5 ∷ needs_pin 18446744073709551615 file ∷ []

handle_send_file_key-cancels_example :
    let left = (handle_send_file_key files typed none esc uploading).0 in
    (left.send_file.is_sending ≡ false) × (drawn (poll_send_updates late left) ≡ drawn left)
handle_send_file_key-cancels_example =
    handle_send_file_key-cancels files typed none uploading late refl refl (refl, (refl, tt))
