-- ===== src/Sink/Receive/Safe.antt =====
-- core/sink.rs: a file's whole way over the disk, from its name on the wire.
use localsend_rs.Base.{◌≡◌, inl, inr, ap, ◌∙◌, subst, arith, false, none, List, [], Bool-cases}
use localsend_rs.Protocol.{Text}
use localsend_rs.Error.{LocalSendError}
use localsend_rs.Sink.Disk.{FilePath, Disk, set, set-at, Keeps, path_eq, Faults, delete, move}
use localsend_rs.Sink.Receive.{
  Outcome, done, fails, AtomicPendingFile, create, write_all, commit, abort, drop_pending,
}
use localsend_rs.Sink.Receive.Created.{
  IsPending, AddsDirectories-Keeps, CreateResult, create-CreateResult,
}
use localsend_rs.Sink.Receive.Published.{
  Fate, commits, aborts, drops, finish, concat, Holds, IsPending-Holds, write_all-Holds, walked-at,
}

-- What becomes of the file of one upload.
unfoldable pub ended : Faults → Text → List Text → Fate → Disk × Outcome AtomicPendingFile → Disk
unfolding finish write_all
ended faults missing chunks fate (disk, fails _) = disk
ended faults missing chunks fate (disk, done p) =
    finish faults missing fate p (write_all chunks p disk)

unfoldable pub receive_file :
    Faults
    → (LocalSendError → Text)
    → Text
    → FilePath
    → Text
    → Text
    → List Text
    → Fate
    → Disk
    → Disk
unfolding create ended
receive_file faults to_string missing save_dir file_name unique chunks fate disk =
    ended faults missing chunks fate (create faults to_string save_dir file_name unique disk)

delete-elsewhere :
    (faults : Faults) (missing : Text) (path q : FilePath) (disk : Disk)
    → path_eq path q ≡ false
    → (delete faults missing path disk).0 q ≡ disk q
unfolding delete
delete-elsewhere faults missing path q disk other = ground (arith, set-at path q none disk)

both_deleted-elsewhere :
    (faults : Faults) (missing : Text) (p : AtomicPendingFile) (q : FilePath) (disk : Disk)
    → path_eq p.temp_path q ≡ false
    → path_eq p.final_path q ≡ false
    → (delete faults missing p.final_path (delete faults missing p.temp_path disk).0).0 q ≡ disk q
both_deleted-elsewhere faults missing p q disk not_temp not_final =
    delete-elsewhere faults missing p.final_path q (delete faults missing p.temp_path disk).0
      not_final
    ∙ delete-elsewhere faults missing p.temp_path q disk not_temp

commit-elsewhere :
    (faults : Faults) (p : AtomicPendingFile) (q : FilePath) (disk : Disk)
    → path_eq p.temp_path q ≡ false
    → path_eq p.final_path q ≡ false
    → ((commit faults p disk).0 q ≡ disk q) × ((commit faults p disk).1 ≡ record p { temp = false })
unfolding commit move
commit-elsewhere faults p q disk not_temp not_final = ground (
  arith,
  set-at p.final_path q (disk p.temp_path) (set p.temp_path none disk),
  set-at p.temp_path q none disk,
)

finish-elsewhere :
    (faults : Faults) (missing : Text) (fate : Fate) (p : AtomicPendingFile) (q : FilePath)
    (disk : Disk)
    → path_eq p.temp_path q ≡ false
    → path_eq p.final_path q ≡ false
    → finish faults missing fate p disk q ≡ disk q
unfolding finish drop_pending abort
finish-elsewhere faults missing commits p q disk not_temp not_final =
    let (same, taken) = commit-elsewhere faults p q disk not_temp not_final in
    ap (λ v. drop_pending faults missing v (commit faults p disk).0 q) taken ∙ same
finish-elsewhere faults missing aborts p q disk not_temp not_final =
    both_deleted-elsewhere faults missing p q disk not_temp not_final
finish-elsewhere faults missing drops p q disk not_temp not_final = elim (Bool-cases p.temp) [
  | inr gone ↦
      let same : drop_pending faults missing p disk ≡ disk = ground (arith, gone) in
      ap (λ d. d q) same
  | inl owned ↦
      let same : drop_pending faults missing p disk
          ≡ (delete faults missing p.final_path (delete faults missing p.temp_path disk).0).0 =
        ground (arith, owned) in
      ap (λ d. d q) same ∙ both_deleted-elsewhere faults missing p q disk not_temp not_final
]

-- A pending file, its bytes written, over a path that held something before.
finish-Keeps :
    (faults : Faults) (missing : Text) (fate : Fate) (walked disk : Disk) (p : AtomicPendingFile)
    (contents : Text)
    → Holds walked p contents disk
    → Keeps walked (finish faults missing fate p disk)
finish-Keeps faults missing fate walked disk p contents h q n e =
    let not_temp : path_eq p.temp_path q ≡ false =
      ground (arith, e, h.temp_free, walked-at walked p.temp_path q) in
    let not_final : path_eq p.final_path q ≡ false =
      ground (arith, e, h.final_free, walked-at walked p.final_path q) in
    finish-elsewhere faults missing fate p q disk not_temp not_final
    ∙ ground (arith, h.at q, not_temp, not_final, e)

ended-Keeps :
    (faults : Faults) (missing : Text) (chunks : List Text) (fate : Fate) (disk : Disk)
    (r : Disk × Outcome AtomicPendingFile)
    → CreateResult disk r
    → Keeps disk (ended faults missing chunks fate r)
unfolding ended
ended-Keeps faults missing chunks fate disk (after, fails e) result = elim result.created [
  | inl (p, (absent, _)) ↦ absurd (ground (arith, absent))
  | inr (_, (_, kept)) ↦ kept
]
ended-Keeps faults missing chunks fate disk (after, done p) result = elim result.created [
  | inr (e, (absent, _)) ↦ absurd (ground (arith, absent))
  | inl (p', (same, pending)) ↦
      let own : p' ≡ p = cc in
      let here : IsPending result.walked after p =
        subst (λ v. IsPending result.walked after v) own pending in
      let held =
        write_all-Holds result.walked after p [] chunks
          (IsPending-Holds result.walked after p here) in
      λ q n e.
        finish-Keeps faults missing fate result.walked (write_all chunks p after) p (concat chunks)
          held q n (AddsDirectories-Keeps disk result.walked result.adds q n e)
]

-- Whatever the operating system fails, and however an upload ends: no file, directory or link that
-- was on the disk is gone, replaced or written to.
pub receive_file-Keeps :
    (faults : Faults) (to_string : LocalSendError → Text) (missing : Text) (save_dir : FilePath)
    (file_name unique : Text) (chunks : List Text) (fate : Fate) (disk : Disk)
    → Keeps disk (receive_file faults to_string missing save_dir file_name unique chunks fate disk)
unfolding receive_file
receive_file-Keeps faults to_string missing save_dir file_name unique chunks fate disk =
    ended-Keeps faults missing chunks fate disk
      (create faults to_string save_dir file_name unique disk)
      (create-CreateResult faults to_string save_dir file_name unique disk)
