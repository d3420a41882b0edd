-- ===== src/Tui/Send/Ends.antt =====
-- tui/app.rs: how a send ends on its screen, and the second attempt with a PIN.
use localsend_rs.Base.{
  ℕ, ◌≡◌, ◌∙◌, refl, sym, ap, subst, true, false, Option, none, some, List, [], ◌∷◌, ◌++◌, All,
  arith, if◌then◌else◌,
}
use localsend_rs.Protocol.{Text, is_empty}
use localsend_rs.Tui.Send.{
  SendKind, file, text, SendUpdate, needs_pin, App, Task, Files, Failure, pin_entry,
  poll_send_updates, apply_update, maybe_open_pin_prompt, spawn_text_send, spawn_file_send,
  send_update_from_result, retry_pending_send_with_pin, handle_pin_key, KeyCode, enter, await_pin,
  next_generation,
}
use localsend_rs.Tui.Send.Updates.{
  IsInterim, Keeps, poll_send_updates-Keeps, poll_send_updates-append, spawn, Offers,
  spawn-IsStarted, refused_pin, IsOver, apply_update-IsOver,
}

-- A send that was started, and whose task reports its result behind any updates that are its progress
-- or carry another generation, is over: its screen no longer sends, the popup is the one that was
-- open, the message tells the result, and the refusal of the PIN marks this kind of send as waiting
-- for one, while any other result leaves that mark as it was.
pub poll_send_updates-IsOver :
    (files : Files) (print : Failure → Text) (kind : SendKind) (pin : Option Text) (app : App)
    (task : Task) (before : List SendUpdate) (result : Option Failure)
    → (spawn files kind pin app).1 ≡ some task
    → All (IsInterim task.generation) before
    → let update = send_update_from_result print task.generation task.kind task.label result in
      IsOver print kind task.label result app
        (poll_send_updates (before ++ update ∷ []) (spawn files kind pin app).0)
unfolding poll_send_updates Keeps
poll_send_updates-IsOver files print kind pin app task before result e interim =
    let started = (spawn files kind pin app).0 in
    let s = spawn-IsStarted files kind pin app task e in
    let waited = poll_send_updates before started in
    let k =
      poll_send_updates-Keeps before started
        (subst (λ g. All (IsInterim g) before) (sym s.0) interim) in
    let over = apply_update-IsOver print kind task.label result waited in
    let update = send_update_from_result print task.generation task.kind task.label result in
    let joined = poll_send_updates-append before (update ∷ []) started in
    let result_of = λ (g : ℕ) (j : SendKind). send_update_from_result print g j task.label result in
    let same =
      ap (λ g. result_of g kind) (k.0 ∙ s.0) ∙ ap (λ j. result_of task.generation j) (sym s.1.0) in
    let landed = ap (λ u. apply_update u waited) same ∙ sym joined in
    let there = subst (λ after. IsOver print kind task.label result waited after) landed over in
    let pending = k.1.1.0 ∙ s.1.1.1.1.0 in
    (
      there.0,
      (
        there.1.0 ∙ (k.1.0 ∙ s.1.1.1.0),
        (there.1.1.0, there.1.1.1 ∙ ap (λ p. if refused_pin result then some kind else p) pending),
      ),
    )

-- The task of a second attempt.
abbrev pub with_pin : Text → Task → Task
with_pin pin task = record task { generation = next_generation task.generation; pin = some pin }

await_pin-Offers :
    (files : Files) (kind : SendKind) (a b c : App) (task : Task)
    → Keeps a b
    → c ≡ await_pin kind b
    → Offers files kind a task
    → Offers files kind c task
unfolding Keeps await_pin
await_pin-Offers files file a b c task k e offers = ground (arith, k, e, offers)
await_pin-Offers files text a b c task k e offers = ground (arith, k, e, offers)

prompted-resends :
    (files : Files) (typed : KeyCode → Text → Text) (kind : SendKind) (task : Task) (entered : Text)
    (refused : App)
    → refused.popup ≡ none
    → refused.pending_pin_kind ≡ some kind
    → refused.send_generation ≡ task.generation
    → task.kind ≡ kind
    → Offers files kind refused task
    → is_empty entered ≡ false
    → let prompted = maybe_open_pin_prompt refused in
      (prompted.popup ≡ some (pin_entry []))
      × ((handle_pin_key files typed entered enter prompted).1 ≡ some (with_pin entered task))
unfolding maybe_open_pin_prompt handle_pin_key retry_pending_send_with_pin spawn_file_send
    spawn_text_send
prompted-resends files typed file task entered refused p w g t offers h =
    ground (arith, p, w, g, t, offers, h)
prompted-resends files typed text task entered refused p w g t offers h =
    ground (arith, p, w, g, t, offers, h)

await_pin-pending :
    (kind : SendKind) (app : App) → (await_pin kind app).pending_pin_kind ≡ some kind
unfolding await_pin
await_pin-pending file app = refl
await_pin-pending text app = refl

await_pin-keeps :
    (kind : SendKind) (app : App)
    → ((await_pin kind app).popup ≡ app.popup)
      × ((await_pin kind app).send_generation ≡ app.send_generation)
unfolding await_pin
await_pin-keeps file app = (refl, refl)
await_pin-keeps text app = (refl, refl)

abbrev seen : App → App
seen app = record app { dirty = true }

refusal_lands :
    (kind : SendKind) (task : Task) (app : App)
    → app.send_generation ≡ task.generation
    → task.kind ≡ kind
    → apply_update (needs_pin task.generation task.kind) app ≡ await_pin kind (seen app)
unfolding apply_update
refusal_lands kind task app g k = ground (arith, g, ap (λ j. await_pin j (seen app)) k)

-- A send that was started without a popup open, and whose task reports behind any of its progress and
-- of other generations that the receiver wants a PIN, opens the prompt for it, empty; and the PIN that
-- is entered there, unless it is empty, starts a task with the same kind, device, content and label,
-- with that PIN and under the next generation, the file system being the same at both starts.
pub handle_pin_key-resends :
    (files : Files) (typed : KeyCode → Text → Text) (kind : SendKind) (pin : Option Text)
    (app : App) (task : Task) (before : List SendUpdate) (entered : Text)
    → (spawn files kind pin app).1 ≡ some task
    → app.popup ≡ none
    → All (IsInterim task.generation) before
    → is_empty entered ≡ false
    → let updates = before ++ needs_pin task.generation task.kind ∷ [] in
      let prompted =
        maybe_open_pin_prompt (poll_send_updates updates (spawn files kind pin app).0) in
      (prompted.popup ≡ some (pin_entry []))
      × ((handle_pin_key files typed entered enter prompted).1 ≡ some (with_pin entered task))
unfolding poll_send_updates Keeps
handle_pin_key-resends files typed kind pin app task before entered e closed interim h =
    let started = (spawn files kind pin app).0 in
    let s = spawn-IsStarted files kind pin app task e in
    let waited = poll_send_updates before started in
    let k =
      poll_send_updates-Keeps before started
        (subst (λ g. All (IsInterim g) before) (sym s.0) interim) in
    let refused = poll_send_updates (before ++ needs_pin task.generation task.kind ∷ []) started in
    let lands = refusal_lands kind task waited (k.0 ∙ s.0) s.1.0 in
    let joined =
      poll_send_updates-append before (needs_pin task.generation task.kind ∷ []) started in
    let awaits = joined ∙ lands in
    let kept = await_pin-keeps kind (seen waited) in
    prompted-resends files typed kind task entered refused
      (ap App.popup awaits ∙ kept.0 ∙ k.1.0 ∙ s.1.1.1.0 ∙ closed)
      (ap App.pending_pin_kind awaits ∙ await_pin-pending kind (seen waited))
      (ap App.send_generation awaits ∙ kept.1 ∙ k.0 ∙ s.0) s.1.0
      (await_pin-Offers files kind started (seen waited) refused task k awaits s.1.1.1.1.1) h
