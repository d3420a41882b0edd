-- ===== src/Tests/Sink.antt =====
-- core/sink.rs: its own unit tests of the names, and instances of the theorems.
use localsend_rs.Base.{◌≡◌, true, arith, refl, ◌≢◌, inr, none, some, List, [], ◌∷◌}
use localsend_rs.Error.{bytes}
use localsend_rs.Sink.Names.{collision_leaf, place, split_extension, suffix_of}
use localsend_rs.Protocol.{Text, text_eq}
use localsend_rs.PathSafety.{split}
use localsend_rs.Sink.Disk.{FilePath, file, directory, Disk, set, path_eq, Faults}
use localsend_rs.Sink.Receive.{
  AtomicPendingFile, done, create, commit, reserve_free_name, strip_prefix,
  walk_or_create_directory,
}
use localsend_rs.Sink.Receive.Published.{commits, finish}
use localsend_rs.Sink.Receive.Safe.{receive_file, receive_file-Keeps}
use localsend_rs.Sink.Receive.Refines.{IsAtomic, receive_file-IsAtomic, commit-failed}
use localsend_rs.Sink.Receive.Reserved.{IsFirstFree, reserve_free_name-IsFirstFree}
use localsend_rs.Sink.Receive.Walked.{AreDirectories, walk_or_create-AreDirectories}

report : collision_leaf (bytes "report.txt") 2 ≡ bytes "report (2).txt"
unfolding collision_leaf place split_extension suffix_of
report = refl

bashrc : collision_leaf (bytes ".bashrc") 1 ≡ bytes ".bashrc (1)"
unfolding collision_leaf place split_extension suffix_of
bashrc = refl

archive : collision_leaf (bytes "archive.tar.gz") 1 ≡ bytes "archive.tar (1).gz"
unfolding collision_leaf place split_extension suffix_of
archive = refl

abbrev root : FilePath
root = bytes "r" ∷ []

-- A disk with the receiver's directory, and a file in it.
unfoldable some_disk : Disk
unfolding set
some_disk =
    set (bytes "r" ∷ bytes "a.txt" ∷ []) (some (file (bytes "old")))
      (set root (some directory) (λ _. none))

abbrev no_faults : Faults
no_faults = record {
  symlink_metadata = λ _. none;
  create_dir = λ _. none;
  create_new = λ _. none;
  remove_file = λ _. none;
  flush = none;
  sync_all = none;
  rename = none;
}

abbrev rename_fails : Faults
rename_fails = record no_faults { rename = some (bytes "denied") }

abbrev pending : AtomicPendingFile
pending = record {
  temp = true;
  temp_path = bytes "r" ∷ bytes ".localsend-u.part" ∷ [];
  final_path = bytes "r" ∷ bytes "a (1).txt" ∷ [];
}

receive_file-Keeps_example :
    receive_file rename_fails
      (λ _. [])
      []
      root
      (bytes "a.txt")
      (bytes "u")
      (bytes "new" ∷ [])
      commits
      some_disk
      (bytes "r" ∷ bytes "a.txt" ∷ [])
    ≡ some (file (bytes "old"))
unfolding some_disk path_eq text_eq
receive_file-Keeps_example =
    receive_file-Keeps rename_fails (λ _. []) [] root (bytes "a.txt") (bytes "u") (bytes "new" ∷ [])
      commits some_disk (bytes "r" ∷ bytes "a.txt" ∷ []) (file (bytes "old")) refl

receive_file-IsAtomic_example :
    IsAtomic some_disk commits (bytes "new") (bytes "r" ∷ bytes "a (1).txt" ∷ []) (
      receive_file no_faults
        (λ _. [])
        []
        root
        (bytes "a.txt")
        (bytes "u")
        (bytes "ne" ∷ bytes "w" ∷ [])
        commits
        some_disk)
unfolding create split text_eq some_disk path_eq collision_leaf place split_extension suffix_of
receive_file-IsAtomic_example =
    receive_file-IsAtomic no_faults (λ _. []) [] root (bytes "a.txt") (bytes "u")
      (bytes "ne" ∷ bytes "w" ∷ []) commits some_disk pending (λ _. refl, (refl, (refl, refl))) refl

commit-failed_example :
    ((path : FilePath) → (commit rename_fails pending some_disk).2 ≢ done path)
    × (finish rename_fails [] commits pending some_disk ≡ some_disk)
commit-failed_example =
    commit-failed rename_fails [] some_disk pending (inr (inr (λ e. ground (arith, e))))

reserve_free_name-IsFirstFree_example :
    IsFirstFree root
      (bytes "a.txt")
      0
      1
      some_disk
      (reserve_free_name no_faults root (bytes "a.txt") some_disk).1
unfolding some_disk path_eq text_eq collision_leaf place split_extension suffix_of
reserve_free_name-IsFirstFree_example =
    reserve_free_name-IsFirstFree no_faults root (bytes "a.txt") 1 some_disk (λ _. refl)
      (omega arith) refl

walk_or_create-AreDirectories_example :
    (names : List Text) × ((strip_prefix root (bytes "r" ∷ bytes "sub" ∷ []) ≡ some names)
      × AreDirectories root names
          (walk_or_create_directory no_faults root (bytes "r" ∷ bytes "sub" ∷ []) some_disk).0)
unfolding walk_or_create_directory text_eq some_disk path_eq
walk_or_create-AreDirectories_example =
    walk_or_create-AreDirectories no_faults root (bytes "r" ∷ bytes "sub" ∷ []) some_disk refl
