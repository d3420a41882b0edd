-- ===== src/Tui/Send/Keys/Cancels.antt =====
-- tui/app.rs: the cancellation of a send by `Esc`.
use localsend_rs.Base.{
  ℕ, ◌≡◌, refl, sym, ap, ◌∙◌, subst, arith, true, false, Option, List, [], ◌∷◌, ◌==◌, All,
}
use localsend_rs.Protocol.{Text, DeviceInfo}
use localsend_rs.Tui.Send.{
  App, Files, KeyCode, esc, enter_file_path, next_generation, clear_file, SendUpdate, progress,
  finished, needs_pin, apply_update, poll_send_updates,
}
use localsend_rs.Tui.Send.Keys.{leave_file, handle_send_file_key}

abbrev pub generation_of : SendUpdate → ℕ
generation_of (progress generation sent total) = generation
generation_of (finished generation kind label error) = generation
generation_of (needs_pin generation kind) = generation

-- The application, but for the mark that it has to be drawn again.
abbrev pub drawn : App → App
drawn app = record app { dirty = false }

next-differs : (g : ℕ) → (g == next_generation g) ≡ false
next-differs g = ground arith

apply_update-superseded :
    (update : SendUpdate) (app : App)
    → (generation_of update == app.send_generation) ≡ false
    → drawn (apply_update update app) ≡ drawn app
unfolding apply_update
apply_update-superseded (progress generation sent total) app h = ground (arith, h)
apply_update-superseded (finished generation kind label error) app h = ground (arith, h)
apply_update-superseded (needs_pin generation kind) app h = ground (arith, h)

poll_send_updates-superseded :
    (updates : List SendUpdate) (app : App)
    → All (λ update. (generation_of update == app.send_generation) ≡ false) updates
    → drawn (poll_send_updates updates app) ≡ drawn app
unfolding poll_send_updates
poll_send_updates-superseded [] app h = refl
poll_send_updates-superseded (update ∷ updates) app h =
    let one = apply_update-superseded update app h.0 in
    let after = apply_update update app in
    poll_send_updates-superseded updates after (
      subst (λ g. All (λ u. (generation_of u == g) ≡ false) updates)
        (sym (ap App.send_generation one)) h.1)
    ∙ one

All-differs :
    (g : ℕ) (updates : List SendUpdate)
    → All (λ update. generation_of update ≡ g) updates
    → All (λ update. (generation_of update == next_generation g) ≡ false) updates
All-differs g [] h = tt
All-differs g (update ∷ updates) h = (
  subst (λ n. (n == next_generation g) ≡ false) (sym h.0) (next-differs g),
  All-differs g updates h.1,
)

leave_file-next :
    (app : App)
    → app.send_file.is_sending ≡ true
    → ((leave_file app).send_generation ≡ next_generation app.send_generation)
      × ((leave_file app).send_file.is_sending ≡ false)
unfolding leave_file clear_file
leave_file-next app h = ground (arith, h)

escaped :
    (files : Files) (typed : KeyCode → Text → Text) (devices : Option (List DeviceInfo)) (app : App)
    → app.send_file.stage ≡ enter_file_path
    → (handle_send_file_key files typed devices esc app).0 ≡ leave_file app
unfolding handle_send_file_key
escaped files typed devices app staged = ground (arith, staged)

-- `Esc` on the file screen while its send is in flight ends the sending there, and whatever the
-- cancelled send reports afterwards, its result and its need of a PIN included, changes nothing but
-- the mark to draw again.
pub handle_send_file_key-cancels :
    (files : Files) (typed : KeyCode → Text → Text) (devices : Option (List DeviceInfo)) (app : App)
    (updates : List SendUpdate)
    → app.send_file.stage ≡ enter_file_path
    → app.send_file.is_sending ≡ true
    → All (λ update. generation_of update ≡ app.send_generation) updates
    → let left = (handle_send_file_key files typed devices esc app).0 in
      (left.send_file.is_sending ≡ false) × (drawn (poll_send_updates updates left) ≡ drawn left)
handle_send_file_key-cancels files typed devices app updates staged flying h =
    let left = (handle_send_file_key files typed devices esc app).0 in
    let is_left = escaped files typed devices app staged in
    let next = leave_file-next app flying in
    (
      ap (λ a. a.send_file.is_sending) is_left ∙ next.1,
      poll_send_updates-superseded updates left (
          subst (λ g. All (λ u. (generation_of u == g) ≡ false) updates)
            (sym (ap App.send_generation is_left ∙ next.0))
            (All-differs app.send_generation updates h)),
    )
