-- ===== src/Tui/Send.antt =====
-- tui/app.rs and tui/screens: the state of the two sending screens, the tasks that send, what the
-- interface makes of their updates, and the PIN prompt. A progress is a fraction; what else the
-- interface shows of a screen is not kept.
pub mod Updates
pub mod Ends
pub mod Keys
use localsend_rs.Base.{
  ℕ, ◌+◌, ◌%◌, ◌^◌, Bool, true, false, ◌&&◌, not, Option, none, some, List, [], ◌∷◌, ◌==◌, min,
  if◌then◌else◌, is_some,
}
use localsend_rs.Protocol.{Text, DeviceInfo, is_empty}
use localsend_rs.Error.{LocalSendError, bytes, invalid_pin}

pub data SendKind : Type 0 where
  file text : SendKind

pub data SendUpdate : Type 0 where
  progress : ℕ → ℕ → ℕ → SendUpdate
  finished : ℕ → SendKind → Text → Option Text → SendUpdate
  needs_pin : ℕ → SendKind → SendUpdate

pub data SendTextStage : Type 0 where
  select_device enter_message : SendTextStage

pub data SendFileStage : Type 0 where
  select_device enter_file_path : SendFileStage

pub record SendTextScreen : Type 0 where
  pub stage : SendTextStage
  pub selected_device : Option DeviceInfo
  pub input : Text
  pub is_sending : Bool
  pub selected : Option ℕ

-- `progress` is a numerator and a denominator.
pub record SendFileScreen : Type 0 where
  pub stage : SendFileStage
  pub selected_device : Option DeviceInfo
  pub input : Text
  pub is_sending : Bool
  pub progress : ℕ × ℕ
  pub current_file : Option Text
  pub selected : Option ℕ

-- A dialog on a transfer is named by its request.
pub data Popup : Type 0 where
  transfer_confirm : ℕ → Popup
  transfer_progress message : Popup
  pin_entry : Text → Popup

-- The status messages of sending; any other is its text.
pub data Status : Type 0 where
  was_sent failed sending : Text → Status
  sending_message pin_required_by_receiver file_missing no_pin send_cancelled : Status
  other_status : Text → Status

pub record App : Type 0 where
  pub popup : Option Popup
  pub send_text : SendTextScreen
  pub send_file : SendFileScreen
  pub status_message : Option Status
  pub send_generation : ℕ
  pub pending_pin_kind : Option SendKind
  pub dirty : Bool

unfoldable pub clear_text : SendTextScreen → SendTextScreen
clear_text s = record s {
  stage = select_device;
  selected_device = none;
  input = [];
  is_sending = false;
  selected = none;
}

unfoldable pub clear_file : SendFileScreen → SendFileScreen
clear_file s = record s {
  stage = select_device;
  selected_device = none;
  input = [];
  is_sending = false;
  progress = (0, 1);
  current_file = none;
  selected = none;
}

abbrev pub text_stops : SendTextScreen → SendTextScreen
text_stops s = record s { is_sending = false }

abbrev pub file_stops : SendFileScreen → SendFileScreen
file_stops s = record s { is_sending = false }

abbrev pub shows_progress : ℕ × ℕ → SendFileScreen → SendFileScreen
shows_progress ratio s = record s { progress = ratio }

-- `u64::wrapping_add(1)`.
abbrev pub next_generation : ℕ → ℕ
next_generation generation = (generation + 1) % 2 ^ 64

unfoldable pub outcome : Text → Option Text → Status
outcome label none = was_sent label
outcome label (some reason) = failed reason

unfoldable pub finish_send : SendKind → Text → Option Text → App → App
unfolding clear_file clear_text outcome
finish_send file label error app = record app {
  send_file = clear_file app.send_file;
  status_message = some (outcome label error);
}
finish_send text label error app = record app {
  send_text = clear_text app.send_text;
  status_message = some (outcome label error);
}

unfoldable pub await_pin : SendKind → App → App
await_pin file app = record app {
  send_file = file_stops app.send_file;
  pending_pin_kind = some file;
  status_message = some pin_required_by_receiver;
}
await_pin text app = record app {
  send_text = text_stops app.send_text;
  pending_pin_kind = some text;
  status_message = some pin_required_by_receiver;
}

abbrev pub ratio : ℕ → ℕ → ℕ × ℕ
ratio sent total = if total == 0 then (0, 1) else (min sent total, total)

-- One round of the loop of `poll_send_updates`.
unfoldable pub apply_update : SendUpdate → App → App
unfolding finish_send await_pin
apply_update (progress generation sent total) app =
    let seen = record app { dirty = true } in
    if generation == app.send_generation
    then record seen { send_file = shows_progress (ratio sent total) app.send_file }
    else seen
apply_update (finished generation kind label error) app =
    let seen = record app { dirty = true } in
    if generation == app.send_generation then finish_send kind label error seen else seen
apply_update (needs_pin generation kind) app =
    let seen = record app { dirty = true } in
    if generation == app.send_generation then await_pin kind seen else seen

unfoldable pub poll_send_updates : List SendUpdate → App → App
unfolding apply_update
poll_send_updates [] app = app
poll_send_updates (update ∷ updates) app = poll_send_updates updates (apply_update update app)

unfoldable pub maybe_open_pin_prompt : App → App
maybe_open_pin_prompt app =
    if is_some app.pending_pin_kind && not (is_some app.popup)
    then record app { popup = some (pin_entry []); dirty = true }
    else app

-- What a spawned task is given, and the generation that its updates carry.
pub record Task : Type 0 where
  pub generation : ℕ
  pub kind : SendKind
  pub target : DeviceInfo
  pub content : Text
  pub label : Text
  pub pin : Option Text

unfoldable pub spawn_text_send : Option Text → App → App × Option Task
spawn_text_send pin app = elim app.send_text.selected_device [
  | none ↦ (app, none)
  | some target ↦
      let generation = next_generation app.send_generation in
      if is_empty app.send_text.input then (app, none) else (
        record app {
          send_generation = generation;
          send_text = record app.send_text { is_sending = true };
          status_message = some sending_message;
        },
        some (record {
          generation = generation;
          kind = text;
          target = target;
          content = app.send_text.input;
          label = bytes "message";
          pin = pin;
        }),
      )
]

-- The file system, as far as it is asked: whether a path exists, and its last component in text.
pub record Files : Type 0 where
  pub exists : Text → Bool
  pub file_name : Text → Option Text

abbrev pub label_of : Option Text → Text
label_of none = bytes "file"
label_of (some name) = name

unfoldable pub spawn_file_send : Files → Option Text → App → App × Option Task
spawn_file_send files pin app = elim app.send_file.selected_device [
  | none ↦ (app, none)
  | some target ↦
      let generation = next_generation app.send_generation in
      let path = app.send_file.input in
      let label = label_of (files.file_name path) in
      if is_empty path
      then (app, none)
      else if not (files.exists path)
      then (record app { status_message = some file_missing }, none)
      else (
        record app {
          send_generation = generation;
          send_file = record app.send_file {
            is_sending = true;
            progress = (0, 1);
            current_file = some label;
          };
          status_message = some (sending label);
        },
        some (record {
          generation = generation;
          kind = file;
          target = target;
          content = path;
          label = label;
          pin = pin;
        }),
      )
]

-- `anyhow::Error`: one of this crate's errors, or another with its text.
pub data Failure : Type 0 where
  local : LocalSendError → Failure
  foreign : Text → Failure

abbrev pub is_invalid_pin : Failure → Bool
is_invalid_pin (local invalid_pin) = true
is_invalid_pin _ = false

-- `print` is the text of an error.
unfoldable pub send_update_from_result :
    (Failure → Text) → ℕ → SendKind → Text → Option Failure → SendUpdate
send_update_from_result print generation kind label none = finished generation kind label none
send_update_from_result print generation kind label (some e) =
    if is_invalid_pin e
    then needs_pin generation kind
    else finished generation kind label (some (print e))

abbrev pub without_pending : App → App
without_pending app = record app { pending_pin_kind = none }

unfoldable pub retry_pending_send_with_pin : Files → Text → App → App × Option Task
unfolding spawn_file_send spawn_text_send
retry_pending_send_with_pin files pin app = elim app.pending_pin_kind [
  | none ↦ (app, none)
  | some file ↦ spawn_file_send files (some pin) (without_pending app)
  | some text ↦ spawn_text_send (some pin) (without_pending app)
]

pub data KeyCode : Type 0 where
  enter esc up down : KeyCode
  char another : ℕ → KeyCode

-- `handle_popup_key` while the popup is the PIN prompt, with `input` in its field; `typed` is what a
-- key makes of a field.
unfoldable pub handle_pin_key :
    Files → (KeyCode → Text → Text) → Text → KeyCode → App → App × Option Task
unfolding retry_pending_send_with_pin
handle_pin_key files typed input enter app =
    if is_empty input
    then (record app { popup = none; pending_pin_kind = none; status_message = some no_pin }, none)
    else retry_pending_send_with_pin files input (record app { popup = none })
handle_pin_key files typed input esc app = (
  record app {
    popup = none;
    pending_pin_kind = none;
    send_generation = next_generation app.send_generation;
    status_message = some send_cancelled;
  },
  none,
)
handle_pin_key files typed input key app =
    (record app { popup = some (pin_entry (typed key input)) }, none)
