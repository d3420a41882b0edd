-- ===== src/Sink/Receive/Refines.antt =====
-- core/sink.rs: the sink against its promise: a reader sees a whole file under a new name, or nothing.
use localsend_rs.Base.{
  ◌≡◌, ◌≢◌, ◌⊎◌, inl, inr, ap, ◌∙◌, subst, arith, false, none, some, ◌&&◌, List, [], if◌then◌else◌,
}
use localsend_rs.Protocol.{Text}
use localsend_rs.Error.{LocalSendError}
use localsend_rs.Sink.Disk.{FilePath, file, Disk, path_eq, Faults, move}
use localsend_rs.Sink.Receive.{
  Outcome, done, fails, AtomicPendingFile, create, write_all, commit, drop_pending,
}
use localsend_rs.Sink.Receive.Safe.{ended, receive_file}
use localsend_rs.Sink.Receive.Created.{
  IsPending, AddsDirectories, CreateResult, create-CreateResult,
}
use localsend_rs.Sink.Receive.Published.{
  Fate, commits, is_commit, finish, concat, IsPending-Holds, write_all-Holds, IsFaultless,
  finish-walked,
}

-- The promise, for an upload whose destination was created: the disk of before with some new
-- directories, and under a name that was free the whole contents, if the upload was committed.
abbrev pub IsAtomic : Disk → Fate → Text → FilePath → Disk → Type 0
IsAtomic disk fate contents path after =
    (walked : Disk) × (AddsDirectories disk walked
      × ((walked path ≡ none)
          × ((q : FilePath)
              → after q
                ≡ (if path_eq path q && is_commit fate then some (file contents) else walked q))))

ended-IsAtomic :
    (faults : Faults) (missing : Text) (chunks : List Text) (fate : Fate) (disk : Disk)
    (r : Disk × Outcome AtomicPendingFile) (p : AtomicPendingFile)
    → IsFaultless faults
    → CreateResult disk r
    → r.1 ≡ done p
    → IsAtomic disk fate (concat chunks) p.final_path (ended faults missing chunks fate r)
unfolding ended
ended-IsAtomic faults missing chunks fate disk (after, fails e) p fine result made =
    absurd (ground (arith, made))
ended-IsAtomic faults missing chunks fate disk (after, done p') p fine result made =
    elim result.created [
      | inr (e, (absent, _)) ↦ absurd (ground (arith, absent))
      | inl (p'', (same, pending)) ↦
          let own : p'' ≡ p = cc in
          let own' : p' ≡ p = cc in
          let here : IsPending result.walked after p =
            subst (λ v. IsPending result.walked after v) own pending in
          let held =
            write_all-Holds result.walked after p [] chunks
              (IsPending-Holds result.walked after p here) in
          (
            result.walked,
            (
              result.adds,
              (
                here.final_free,
                λ q.
                    ap (λ v. finish faults missing fate v (write_all chunks v after) q) own'
                    ∙ finish-walked faults missing fate result.walked (write_all chunks p after) p
                        (concat chunks) here.owned held fine q,
              ),
            ),
          )
    ]

-- An upload whose destination was created, and for which the operating system fails no later call:
-- committed, its whole contents stand under a name that was free, and aborted or dropped, nothing of
-- it is left but the directories that it needed.
pub receive_file-IsAtomic :
    (faults : Faults) (to_string : LocalSendError → Text) (missing : Text) (save_dir : FilePath)
    (file_name unique : Text) (chunks : List Text) (fate : Fate) (disk : Disk)
    (p : AtomicPendingFile)
    → IsFaultless faults
    → (create faults to_string save_dir file_name unique disk).1 ≡ done p
    → IsAtomic disk fate
        (concat chunks)
        p.final_path
        (receive_file faults to_string missing save_dir file_name unique chunks fate disk)
unfolding receive_file
receive_file-IsAtomic faults to_string missing save_dir file_name unique chunks fate disk p fine
      made =
    ended-IsAtomic faults missing chunks fate disk
      (create faults to_string save_dir file_name unique disk) p fine
      (create-CreateResult faults to_string save_dir file_name unique disk) made

-- The operating system fails a step of the commit.
abbrev pub FailsCommit : Faults → Type 0
FailsCommit faults = (faults.flush ≢ none) ⊎ ((faults.sync_all ≢ none) ⊎ (faults.rename ≢ none))

commit-kept :
    (faults : Faults) (disk : Disk) (p : AtomicPendingFile)
    → FailsCommit faults
    → ((commit faults p disk).0 ≡ disk)
      × (((commit faults p disk).1 ≡ record p { temp = false })
          × ((path : FilePath) → (commit faults p disk).2 ≢ done path))
unfolding commit move
commit-kept faults disk p failing =
    (ground (arith, failing), (ground (arith, failing), λ path e. ground (arith, failing, e)))

-- A commit of which a step fails reports an error, and leaves its temporary file and the empty file
-- under the reserved name on the disk: dropping what is left of it removes neither.
pub commit-failed :
    (faults : Faults) (missing : Text) (disk : Disk) (p : AtomicPendingFile)
    → FailsCommit faults
    → ((path : FilePath) → (commit faults p disk).2 ≢ done path)
      × (finish faults missing commits p disk ≡ disk)
unfolding finish drop_pending
commit-failed faults missing disk p failing =
    let (kept, (taken, reports)) = commit-kept faults disk p failing in
    (reports, ap (λ v. drop_pending faults missing v (commit faults p disk).0) taken ∙ kept)
