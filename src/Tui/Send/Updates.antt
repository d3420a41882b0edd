-- ===== src/Tui/Send/Updates.antt =====
-- tui/app.rs: what the updates of the sending tasks do, from the start of a send to its end.
use localsend_rs.Base.{
  ℕ, ◌≡◌, ◌∙◌, inl, inr, refl, sym, subst, Bool, true, false, Option, none, some, List, [], ◌∷◌,
  ◌++◌, ◌==◌, All, arith, if◌then◌else◌, Bool-cases, Option-cases,
}
use localsend_rs.Protocol.{Text, is_empty}
use localsend_rs.Error.{bytes}
use localsend_rs.Tui.Send.{
  SendKind, file, text, SendUpdate, progress, finished, needs_pin, App, Task, Files, Failure,
  Status, apply_update, poll_send_updates, spawn_text_send, spawn_file_send,
  send_update_from_result, finish_send, await_pin, clear_file, clear_text, outcome, is_invalid_pin,
  label_of, was_sent, failed, pin_required_by_receiver,
}

-- An update that is not the end of the send of this generation.
abbrev pub IsInterim : ℕ → SendUpdate → Type 0
IsInterim live (progress generation sent total) = Unit
IsInterim live (finished generation kind label error) = (generation == live) ≡ false
IsInterim live (needs_pin generation kind) = (generation == live) ≡ false

-- What a send in flight needs is as it was.
unfoldable pub Keeps : App → App → Type 0
Keeps a b =
    (b.send_generation ≡ a.send_generation)
    × ((b.popup ≡ a.popup)
        × ((b.pending_pin_kind ≡ a.pending_pin_kind)
            × ((b.send_text ≡ a.send_text)
                × ((b.send_file.selected_device ≡ a.send_file.selected_device)
                    × ((b.send_file.input ≡ a.send_file.input)
                        × (b.send_file.is_sending ≡ a.send_file.is_sending))))))

pub Keeps-trans : (a b c : App) → Keeps a b → Keeps b c → Keeps a c
unfolding Keeps
Keeps-trans a b c (g, (p, (k, (t, (d, (i, s)))))) (g', (p', (k', (t', (d', (i', s')))))) =
    (g' ∙ g, (p' ∙ p, (k' ∙ k, (t' ∙ t, (d' ∙ d, (i' ∙ i, s' ∙ s))))))

apply_update-Keeps :
    (update : SendUpdate) (app : App)
    → IsInterim app.send_generation update
    → Keeps app (apply_update update app)
unfolding Keeps apply_update
apply_update-Keeps (progress generation sent total) app h =
    elim (Bool-cases (generation == app.send_generation)) [
      | inl live ↦ ground (arith, live)
      | inr stale ↦ ground (arith, stale)
    ]
apply_update-Keeps (finished generation kind label error) app h = ground (arith, h)
apply_update-Keeps (needs_pin generation kind) app h = ground (arith, h)

pub poll_send_updates-Keeps :
    (updates : List SendUpdate) (app : App)
    → All (IsInterim app.send_generation) updates
    → Keeps app (poll_send_updates updates app)
unfolding Keeps poll_send_updates
poll_send_updates-Keeps [] app h = (refl, (refl, (refl, (refl, (refl, (refl, refl))))))
poll_send_updates-Keeps (update ∷ updates) app h =
    let after = apply_update update app in
    let one = apply_update-Keeps update app h.0 in
    Keeps-trans app after (poll_send_updates updates after) one (
      poll_send_updates-Keeps updates after
        (subst (λ g. All (IsInterim g) updates) (sym one.0) h.1))

pub poll_send_updates-append :
    (xs ys : List SendUpdate) (app : App)
    → poll_send_updates (xs ++ ys) app ≡ poll_send_updates ys (poll_send_updates xs app)
unfolding poll_send_updates
poll_send_updates-append [] ys app = refl
poll_send_updates-append (x ∷ xs) ys app = poll_send_updates-append xs ys (apply_update x app)

-- The send of either kind, as a retry starts it.
abbrev pub spawn : Files → SendKind → Option Text → App → App × Option Task
spawn files file pin app = spawn_file_send files pin app
spawn files text pin app = spawn_text_send pin app

abbrev pub is_sending : SendKind → App → Bool
is_sending file app = app.send_file.is_sending
is_sending text app = app.send_text.is_sending

-- What the send of a kind would take up: a device and a text that is not empty, of a file that exists.
abbrev pub Offers : Files → SendKind → App → Task → Type 0
Offers files file app task =
    (app.send_file.selected_device ≡ some task.target)
    × ((app.send_file.input ≡ task.content)
        × ((is_empty task.content ≡ false)
            × ((files.exists task.content ≡ true)
                × (task.label ≡ label_of (files.file_name task.content)))))
Offers files text app task =
    (app.send_text.selected_device ≡ some task.target)
    × ((app.send_text.input ≡ task.content)
        × ((is_empty task.content ≡ false) × (task.label ≡ bytes "message")))

abbrev pub IsStarted : Files → SendKind → App → App → Task → Type 0
IsStarted files kind app after task =
    (after.send_generation ≡ task.generation)
    × ((task.kind ≡ kind)
        × ((is_sending kind after ≡ true)
            × ((after.popup ≡ app.popup)
                × ((after.pending_pin_kind ≡ app.pending_pin_kind)
                    × Offers files kind after task))))

pub spawn-IsStarted :
    (files : Files) (kind : SendKind) (pin : Option Text) (app : App) (task : Task)
    → (spawn files kind pin app).1 ≡ some task
    → IsStarted files kind app (spawn files kind pin app).0 task
unfolding spawn_text_send spawn_file_send
spawn-IsStarted files file pin app task e = elim (Option-cases app.send_file.selected_device) [
  | inl nobody ↦ absurd (ground (arith, e, nobody))
  | inr (target, chosen) ↦ elim (Bool-cases (is_empty app.send_file.input)) [
    | inl blank ↦ absurd (ground (arith, e, chosen, blank))
    | inr written ↦ elim (Bool-cases (files.exists app.send_file.input)) [
      | inl there ↦ ground (arith, e, chosen, written, there)
      | inr missing ↦ absurd (ground (arith, e, chosen, written, missing))
    ]
  ]
]
spawn-IsStarted files text pin app task e = elim (Option-cases app.send_text.selected_device) [
  | inl nobody ↦ absurd (ground (arith, e, nobody))
  | inr (target, chosen) ↦ elim (Bool-cases (is_empty app.send_text.input)) [
    | inl blank ↦ absurd (ground (arith, e, chosen, blank))
    | inr written ↦ ground (arith, e, chosen, written)
  ]
]

-- What the interface says of a result, and whether it asks for a PIN.
abbrev pub reported : (Failure → Text) → Text → Option Failure → Status
reported print label none = was_sent label
reported print label (some e) =
    if is_invalid_pin e then pin_required_by_receiver else failed (print e)

abbrev pub refused_pin : Option Failure → Bool
refused_pin none = false
refused_pin (some e) = is_invalid_pin e

abbrev pub IsOver : (Failure → Text) → SendKind → Text → Option Failure → App → App → Type 0
IsOver print kind label result app after =
    (is_sending kind after ≡ false)
    × ((after.popup ≡ app.popup)
        × ((after.status_message ≡ some (reported print label result))
            × (after.pending_pin_kind
                ≡ (if refused_pin result then some kind else app.pending_pin_kind))))

pub apply_update-IsOver :
    (print : Failure → Text) (kind : SendKind) (label : Text) (result : Option Failure) (app : App)
    → let update = send_update_from_result print app.send_generation kind label result in
      IsOver print kind label result app (apply_update update app)
unfolding apply_update send_update_from_result finish_send await_pin clear_file clear_text outcome
apply_update-IsOver print file label none app = ground arith
apply_update-IsOver print text label none app = ground arith
apply_update-IsOver print file label (some e) app = elim (Bool-cases (is_invalid_pin e)) [
  | inl wanted ↦ ground (arith, wanted)
  | inr other ↦ ground (arith, other)
]
apply_update-IsOver print text label (some e) app = elim (Bool-cases (is_invalid_pin e)) [
  | inl wanted ↦ ground (arith, wanted)
  | inr other ↦ ground (arith, other)
]
