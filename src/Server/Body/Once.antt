-- ===== src/Server/Body/Once.antt =====
-- server/handlers.rs: the destination of an upload is committed or aborted exactly once.
use localsend_rs.Base.{
  ℕ, ◌≡◌, ◌≢◌, ◌⊎◌, ◌∙◌, refl, sym, inl, inr, ◌==◌, Bool, some, List, [], ◌∷◌, arith, Bool-cases,
  Option-cases, ap, if◌then◌else◌, length, ◌+◌, ◌-◌, ◌%◌, suc, u64_max, ◌++◌,
}
use localsend_rs.Protocol.{Text}
use localsend_rs.Session.{StandardPublicationPermit, begin_publication}
use localsend_rs.Server.Http.{StatusCode, ok, conflict, internal_server_error}
use localsend_rs.Server.State.{
  World, SinkCall, committed, aborted, lifecycle_at, set_lifecycle, send, set_current,
}
use localsend_rs.Server.Upload.{Upload, add, rollback, set_counter, emit}
use localsend_rs.Server.Body.Integrity.{finish_body_refuses}
use localsend_rs.Server.Body.{
  BodyItem, BodyResult, cancelled, failed, written, is_cancelled, write_body, Finished, answer,
  publishing, discard, publish, finish_body, progress_of, UploadCall, created, receive, commit_file,
  release_lease, release_permit, record_file, complete, abort, Chunk, matches_sha, chunk, broken,
  unwritable,
}

-- What was done with one destination, the last call first.
pub calls_of : ℕ → List SinkCall → List SinkCall
calls_of pending [] = []
calls_of pending (committed p ∷ calls) =
    let rest = calls_of pending calls in if p == pending then committed p ∷ rest else rest
calls_of pending (aborted p ∷ calls) =
    let rest = calls_of pending calls in if p == pending then aborted p ∷ rest else rest

abbrev pub fate : ℕ → World → List SinkCall
fate pending w = calls_of pending w.sink_calls

-- Other requests leave a destination alone that is not theirs.
abbrev pub LeavesAlone : ℕ → (World → World) → Type 0
LeavesAlone pending f = (w : World) → fate pending (f w) ≡ fate pending w

abbrev pub BodyLeavesAlone : ℕ → List BodyItem → Type 0
BodyLeavesAlone pending [] = Unit
BodyLeavesAlone pending (item ∷ items) =
    LeavesAlone pending item.meanwhile × BodyLeavesAlone pending items

add-fate : (pending : ℕ) (p : _) (n : ℕ) (w : World) → (add p n w).sink_calls ≡ w.sink_calls
unfolding add set_counter emit send
add-fate pending p n w = refl

-- The body goes on after a piece, or it ends there.
write_body-step :
    (sha256 : Text → Text) (u : Upload) (item : BodyItem) (items : List BodyItem) (flushed : Bool)
    (bytes : ℕ) (hashed : Text) (w : World)
    → ((write_body sha256 u (item ∷ items) flushed bytes hashed w).0 ≡ item.meanwhile w)
      ⊎ ((c : Text) × (let next = (bytes + length c) % suc u64_max in
            write_body sha256 u (item ∷ items) flushed bytes hashed w
            ≡ write_body sha256 u items flushed next
                (hashed ++ c)
                (add (progress_of u) (next - bytes) (item.meanwhile w))))
unfolding write_body
write_body-step sha256 u item items flushed bytes hashed w = go item.piece refl
  where
    go :
        (piece : Chunk)
        → item.piece ≡ piece
        → ((write_body sha256 u (item ∷ items) flushed bytes hashed w).0 ≡ item.meanwhile w)
          ⊎ ((c : Text) × (let next = (bytes + length c) % suc u64_max in
                write_body sha256 u (item ∷ items) flushed bytes hashed w
                ≡ write_body sha256 u items flushed next
                    (hashed ++ c)
                    (add (progress_of u) (next - bytes) (item.meanwhile w))))
    go broken e = inl (ground arith)
    go (unwritable _) e = inl (ground arith)
    go (chunk c) e = elim (Bool-cases (is_cancelled u (item.meanwhile w))) [
      | inl stop ↦ inl (ground arith)
      | inr run ↦ inr (c, ground arith)
    ]

write_body-fate :
    (sha256 : Text → Text) (u : Upload) (pending : ℕ) (items : List BodyItem) (flushed : Bool)
    (bytes : ℕ) (hashed : Text) (w : World)
    → BodyLeavesAlone pending items
    → fate pending (write_body sha256 u items flushed bytes hashed w).0 ≡ fate pending w
unfolding write_body
write_body-fate sha256 u pending [] flushed bytes hashed w alone = ground arith
write_body-fate sha256 u pending (item ∷ items) flushed bytes hashed w (alone, rest) =
    elim (write_body-step sha256 u item items flushed bytes hashed w) [
      | inl ended ↦ ap (fate pending) ended ∙ alone w
      | inr (c, run) ↦
          let next = (bytes + length c) % suc u64_max in
          let w' = add (progress_of u) (next - bytes) (item.meanwhile w) in
          ap (λ r. fate pending r.0) run
          ∙ write_body-fate sha256 u pending items flushed ((bytes + length c) % suc u64_max)
              (hashed ++ c)
              (add (progress_of u) ((bytes + length c) % suc u64_max - bytes) (item.meanwhile w))
              rest
          ∙ ap (calls_of pending)
              (add-fate pending (progress_of u) (next - bytes) (item.meanwhile w))
          ∙ alone w
    ]

-- The checks after a body abort its destination, or they leave it to the publication.
abbrev Checked : ℕ → World → World × Finished → Type 0
Checked pending w r =
    ((code : StatusCode) × (r.1 ≡ answer code)
      × (fate pending r.0 ≡ aborted pending ∷ fate pending w))
    ⊎ ((n : ℕ) × (permit : StandardPublicationPermit) × (r.1 ≡ publishing n permit)
        × (fate pending r.0 ≡ fate pending w))

discard-Checked :
    (u : Upload) (pending n : ℕ) (code : StatusCode) (w : World)
    → Checked pending w (discard u pending n code w)
unfolding discard abort rollback release_lease set_lifecycle set_counter emit send calls_of
discard-Checked u pending n code w = inl (code, refl, ground arith)

publish-Checked :
    (u : Upload) (pending n : ℕ) (w : World) → Checked pending w (publish u pending n w)
unfolding publish abort rollback set_lifecycle set_counter emit send calls_of
publish-Checked u pending n w =
    elim (Option-cases
      (begin_publication u.receive_lease (lifecycle_at u.receive_lease.lifecycle w)).1) [
        | inl lost ↦ inl (conflict, ground arith, ground arith)
        | inr (permit, won) ↦ inr (n, permit, ground arith, ground arith)
      ]

finish_body-Checked :
    (u : Upload) (pending : ℕ) (body : BodyResult) (w : World)
    → Checked pending w (finish_body u pending body w)
unfolding finish_body
finish_body-Checked u pending (cancelled n) w = discard-Checked u pending n conflict w
finish_body-Checked u pending (failed n) w = discard-Checked u pending n internal_server_error w
finish_body-Checked u pending (written n h) w = elim (Bool-cases (n == u.declared_size)) [
  | inr short ↦ rw (short, finish_body) (discard-Checked u pending n internal_server_error w)
  | inl size ↦ elim (Bool-cases (matches_sha u.declared_sha h)) [
    | inr altered ↦
        rw (size, altered, finish_body) (discard-Checked u pending n internal_server_error w)
    | inl intact ↦ rw (size, intact, finish_body) (publish-Checked u pending n w)
  ]
]

commit_file-fate :
    (call : UploadCall) (u : Upload) (pending bytes : ℕ) (permit : StandardPublicationPermit)
    (w : World)
    → LeavesAlone pending call.while_committing
    → fate pending (commit_file call u pending bytes permit w).0
      ≡ committed pending ∷ fate pending w
unfolding commit_file record_file rollback release_permit complete set_lifecycle send set_current
    set_counter emit calls_of
commit_file-fate call u pending bytes permit w alone = ground (arith, alone w)

-- The body of an upload, checked.
abbrev checked : (Text → Text) → UploadCall → Upload → ℕ → World → World × Finished
checked sha256 call u pending w =
    let (w2, body) = write_body sha256 u call.body call.flushed 0 [] (call.while_creating w) in
    finish_body u pending body w2

receive-stopped :
    (sha256 : Text → Text) (call : UploadCall) (u : Upload) (pending : ℕ) (w : World)
    (code : StatusCode)
    → call.creation ≡ created pending
    → (checked sha256 call u pending w).1 ≡ answer code
    → receive sha256 call u w ≡ ((checked sha256 call u pending w).0, some code)
unfolding receive
receive-stopped sha256 call u pending w code e stopped = ground arith

receive-going :
    (sha256 : Text → Text) (call : UploadCall) (u : Upload) (pending : ℕ) (w : World) (n : ℕ)
    (permit : StandardPublicationPermit)
    → call.creation ≡ created pending
    → (checked sha256 call u pending w).1 ≡ publishing n permit
    → receive sha256 call u w
      ≡ commit_file call u pending n permit (checked sha256 call u pending w).0
unfolding receive
receive-going sha256 call u pending w n permit e going = ground arith

some_inj : (a b : StatusCode) → some a ≡ some b → a ≡ b
some_inj a b e = cc

-- An upload with a destination does one thing with it, once: it commits it, or it aborts it and is
-- not answered with success. This holds where other requests leave the destination alone.
pub receive_once :
    (sha256 : Text → Text) (call : UploadCall) (u : Upload) (pending : ℕ) (w : World)
    → call.creation ≡ created pending
    → LeavesAlone pending call.while_creating
    → BodyLeavesAlone pending call.body
    → LeavesAlone pending call.while_committing
    → (fate pending (receive sha256 call u w).0 ≡ committed pending ∷ fate pending w)
      ⊎ ((fate pending (receive sha256 call u w).0 ≡ aborted pending ∷ fate pending w)
          × ((receive sha256 call u w).1 ≢ some ok))
receive_once sha256 call u pending w e before during after =
    let (w2, body) = write_body sha256 u call.body call.flushed 0 [] (call.while_creating w) in
    let kept : fate pending w2 ≡ fate pending w =
      write_body-fate sha256 u pending call.body call.flushed 0 [] (call.while_creating w) during
      ∙ before w in
    elim (finish_body-Checked u pending body w2) [
      | inl (code, stopped, gone) ↦
          let run = receive-stopped sha256 call u pending w code e stopped in
          inr (
            ap (λ r. fate pending r.0) run ∙ gone ∙ ap (λ f. aborted pending ∷ f) kept,
            λ success.
                finish_body_refuses u pending body w2 code stopped
                  (some_inj code ok (sym (ap (λ r. r.1) run) ∙ success)),
          )
      | inr (n, permit, going, held) ↦
          let run = receive-going sha256 call u pending w n permit e going in
          inl (
            ap (λ r. fate pending r.0) run
            ∙ commit_file-fate call u pending n permit (finish_body u pending body w2).0 after
            ∙ ap (λ f. committed pending ∷ f) (held ∙ kept))
    ]
