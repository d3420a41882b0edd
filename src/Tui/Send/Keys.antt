-- ===== src/Tui/Send/Keys.antt =====
-- tui/app.rs and tui/screens: the keys of the two sending screens.
pub mod Cancels
use localsend_rs.Base.{
  ℕ, ◌+◌, ◌-◌, ◌%◌, Option, none, some, List, [], ◌∷◌, ◌==◌, if◌then◌else◌, length,
}
use localsend_rs.Protocol.{Text, DeviceInfo}
use localsend_rs.Tui.Send.{
  SendTextScreen, SendFileScreen, App, Task, Files, KeyCode, enter, esc, up, down, char,
  select_device, enter_message, enter_file_path, send_cancelled, next_generation, clear_file,
  text_stops, spawn_text_send, spawn_file_send,
}
use localsend_rs.Tui.Send

-- The row that is selected next in a list of so many devices.
abbrev pub row_after : Option ℕ → ℕ → Option ℕ
row_after none count = some 0
row_after (some i) count = some ((i + 1) % count)

abbrev pub row_before : Option ℕ → ℕ → Option ℕ
row_before none count = some 0
row_before (some i) count = if i == 0 then some (count - 1) else some (i - 1)

-- `devices` is the list, when its lock is free.
unfoldable pub moved : (Option ℕ → ℕ → Option ℕ) → Option (List DeviceInfo) → Option ℕ → Option ℕ
moved step none selected = selected
moved step (some []) selected = selected
moved step (some (d ∷ devices)) selected = step selected (length (d ∷ devices))

abbrev pub get : List DeviceInfo → ℕ → Option DeviceInfo
get [] i = none
get (d ∷ devices) i = let rest = get devices (i - 1) in if i == 0 then some d else rest

unfoldable pub current_device : Option (List DeviceInfo) → Option ℕ → Option DeviceInfo
current_device (some devices) (some i) = get devices i
current_device _ _ = none

unfoldable pub select_text : Option (List DeviceInfo) → SendTextScreen → SendTextScreen
unfolding current_device
select_text devices s = elim (current_device devices s.selected) [
  | none ↦ s
  | some device ↦ record s { selected_device = some device; stage = enter_message }
]

unfoldable pub select_file : Option (List DeviceInfo) → SendFileScreen → SendFileScreen
unfolding current_device
select_file devices s = elim (current_device devices s.selected) [
  | none ↦ s
  | some device ↦ record s { selected_device = some device; stage = enter_file_path }
]

abbrev pub move_text :
    (Option ℕ → ℕ → Option ℕ) → Option (List DeviceInfo) → SendTextScreen → SendTextScreen
unfolding moved
move_text step devices s = record s { selected = moved step devices s.selected }

abbrev pub move_file :
    (Option ℕ → ℕ → Option ℕ) → Option (List DeviceInfo) → SendFileScreen → SendFileScreen
unfolding moved
move_file step devices s = record s { selected = moved step devices s.selected }

-- The keys while a device is chosen; `r` and `R` ask for a refresh of the list, which is not kept.
abbrev pub choose_text : Option (List DeviceInfo) → KeyCode → SendTextScreen → SendTextScreen
unfolding select_text
choose_text devices up s = move_text row_before devices s
choose_text devices down s = move_text row_after devices s
choose_text devices enter s = select_text devices s
choose_text devices (char c) s =
    if c == 107
    then move_text row_before devices s
    else if c == 106
    then move_text row_after devices s
    else s
choose_text devices key s = s

abbrev pub choose_file : Option (List DeviceInfo) → KeyCode → SendFileScreen → SendFileScreen
unfolding select_file
choose_file devices up s = move_file row_before devices s
choose_file devices down s = move_file row_after devices s
choose_file devices enter s = select_file devices s
choose_file devices (char c) s =
    if c == 107
    then move_file row_before devices s
    else if c == 106
    then move_file row_after devices s
    else s
choose_file devices key s = s

unfoldable pub leave_text : App → App
leave_text app =
    if app.send_text.is_sending
    then record app {
      send_generation = next_generation app.send_generation;
      status_message = some send_cancelled;
      send_text = record (text_stops app.send_text) { stage = select_device };
    }
    else record app { send_text = record app.send_text { stage = select_device } }

unfoldable pub leave_file : App → App
unfolding clear_file
leave_file app =
    if app.send_file.is_sending
    then record app {
      send_generation = next_generation app.send_generation;
      status_message = some send_cancelled;
      send_file = clear_file app.send_file;
    }
    else record app { send_file = clear_file app.send_file }

-- `typed` is what a key makes of a field.
unfoldable pub handle_send_text_key :
    (KeyCode → Text → Text) → Option (List DeviceInfo) → KeyCode → App → App × Option Task
unfolding leave_text spawn_text_send
handle_send_text_key typed devices key app = elim app.send_text.stage [
  | select_device ↦ (record app { send_text = choose_text devices key app.send_text }, none)
  | enter_message ↦ elim key [
    | esc ↦ (leave_text app, none)
    | enter ↦ if app.send_text.is_sending then (app, none) else spawn_text_send none app
    | other ↦ (
      record app { send_text = record app.send_text { input = typed other app.send_text.input } },
      none,
    )
  ]
]

unfoldable pub handle_send_file_key :
    Files → (KeyCode → Text → Text) → Option (List DeviceInfo) → KeyCode → App → App × Option Task
unfolding leave_file spawn_file_send
handle_send_file_key files typed devices key app = elim app.send_file.stage [
  | select_device ↦ (record app { send_file = choose_file devices key app.send_file }, none)
  | enter_file_path ↦ elim key [
    | esc ↦ (leave_file app, none)
    | enter ↦ if app.send_file.is_sending then (app, none) else spawn_file_send files none app
    | other ↦ if app.send_file.is_sending then (app, none) else (
      record app { send_file = record app.send_file { input = typed other app.send_file.input } },
      none,
    )
  ]
]
