-- ===== src/Server/WebShare/Downloads/Streams.antt =====
-- server/web_share.rs: a download's stream over all the polls of it.
use localsend_rs.Base.{
  ℕ, ◌+◌, ◌<◌, ◌≤◌, ◌≡◌, ◌∙◌, Bool, true, false, not, ◌&&◌, ◌||◌, List, [], ◌∷◌, if◌then◌else◌,
  arith, inl, inr, ap, Bool-cases, u64_max, leb,
}
use localsend_rs.Server.WebShare.{WebWorld, FinishTask, set_events}
use localsend_rs.Server.WebShare.Downloads.{
  ProgressStream, Polled, chunk, failed, ends, pending, finish_file, poll_next, poll_all,
}

-- The bytes that the polls gave, and whether one of them was the end.
unfoldable pub given : List Polled → ℕ
given [] = 0
given (chunk n ∷ ps) = n + given ps
given (failed ∷ ps) = given ps
given (ends ∷ ps) = given ps
given (pending ∷ ps) = given ps

unfoldable pub has_end : List Polled → Bool
has_end [] = false
has_end (ends ∷ ps) = true
has_end (chunk _ ∷ ps) = has_end ps
has_end (failed ∷ ps) = has_end ps
has_end (pending ∷ ps) = has_end ps

abbrev pub task_of : ProgressStream → FinishTask
task_of s = record { session_id = s.session_id; file_id = s.file_id }

-- What a stream leaves of the tasks.
abbrev pub HasTasks : ProgressStream → WebWorld → WebWorld × ProgressStream → Type 0
HasTasks s w r =
    r.0.tasks ≡ (if r.1.finished && not s.finished then task_of s ∷ w.tasks else w.tasks)

poll_next-HasTasks :
    (p : Polled) (s : ProgressStream) (w : WebWorld)
    → HasTasks s w (poll_next p s w)
      × ((s.finished ≡ true → (poll_next p s w).1.finished ≡ true)
          × (task_of (poll_next p s w).1 ≡ task_of s))
unfolding poll_next finish_file set_events
poll_next-HasTasks (chunk n) s w = ground arith
poll_next-HasTasks failed s w = ground arith
poll_next-HasTasks ends s w = ground arith
poll_next-HasTasks pending s w = ground arith

pub poll_all-HasTasks :
    (ps : List Polled) (s : ProgressStream) (w : WebWorld)
    → HasTasks s w (poll_all ps s w) × (s.finished ≡ true → (poll_all ps s w).1.finished ≡ true)
unfolding poll_all
poll_all-HasTasks [] s w = ground arith
poll_all-HasTasks (p ∷ ps) s w =
    let (tasks, (stays, same)) = poll_next-HasTasks p s w in
    let (tasks', stays') = poll_all-HasTasks ps (poll_next p s w).1 (poll_next p s w).0 in
    elim (Bool-cases s.finished) [
      | inl over ↦ ground (arith, stays, stays', tasks, tasks')
      | inr under ↦ elim (Bool-cases (poll_next p s w).1.finished) [
        | inl over ↦ ground (arith, stays', tasks, tasks')
        | inr under' ↦ ground (arith, tasks, tasks', same)
      ]
    ]

-- One poll of a stream that is open: whether it is over after it.
poll_next-finished :
    (p : Polled) (ps : List Polled) (s : ProgressStream) (w : WebWorld)
    → s.total_bytes ≤ u64_max
    → (leb s.total_bytes s.bytes_sent && not s.finished) ≡ false
    → ((leb (poll_next p s w).1.total_bytes (poll_next p s w).1.bytes_sent
          && not (poll_next p s w).1.finished)
        ≡ false)
      × (((poll_next p s w).1.total_bytes ≡ s.total_bytes)
          × (((poll_next p s w).1.finished
                || has_end ps
                || leb s.total_bytes ((poll_next p s w).1.bytes_sent + given ps))
              ≡ (s.finished
                  || has_end (p ∷ ps)
                  || leb s.total_bytes (s.bytes_sent + given (p ∷ ps)))))
unfolding poll_next finish_file set_events given has_end
poll_next-finished (chunk n) ps s w fits h = ground arith
poll_next-finished failed ps s w fits h = ground arith
poll_next-finished ends ps s w fits h = ground arith
poll_next-finished pending ps s w fits h = ground arith

pub poll_all-finished :
    (ps : List Polled) (s : ProgressStream) (w : WebWorld)
    → s.total_bytes ≤ u64_max
    → (leb s.total_bytes s.bytes_sent && not s.finished) ≡ false
    → (poll_all ps s w).1.finished
      ≡ (s.finished || has_end ps || leb s.total_bytes (s.bytes_sent + given ps))
unfolding poll_all given has_end
poll_all-finished [] s w fits h = ground arith
poll_all-finished (p ∷ ps) s w fits h =
    let (h', (total, same)) = poll_next-finished p ps s w fits h in
    poll_all-finished ps (poll_next p s w).1 (poll_next p s w).0 (ground (arith, total)) h'
    ∙ (ap
          (λ t.
            (poll_next p s w).1.finished
            || has_end ps
            || leb t ((poll_next p s w).1.bytes_sent + given ps))
          total
        ∙ same)

-- A download's stream that has bytes to send leaves one task, that of its own file, if its source
-- ended or gave all its bytes, and none otherwise, however it is polled.
pub poll_all-tasks :
    (ps : List Polled) (s : ProgressStream) (w : WebWorld)
    → s.finished ≡ false
    → s.bytes_sent < s.total_bytes
    → s.total_bytes ≤ u64_max
    → (poll_all ps s w).0.tasks ≡ (
        if has_end ps || leb s.total_bytes (s.bytes_sent + given ps)
        then task_of s ∷ w.tasks
        else w.tasks)
poll_all-tasks ps s w running more fits =
    let over = poll_all-finished ps s w fits (ground arith) in
    ground (arith, (poll_all-HasTasks ps s w).0, over)
