-- ===== src/Sink/Receive.antt =====
-- core/sink.rs: `AtomicFileSink` and `AtomicPendingFile`. `unique` is the random part of the
-- temporary's name, and a call of `create` meets one state of the disk from its start to its end.
pub mod Created
pub mod Published
pub mod Safe
pub mod Refines
pub mod Reserved
pub mod Named
pub mod Walked
use localsend_rs.Base.{
  ℕ, zero, suc, Bool, true, false, Option, none, some, List, [], ◌∷◌, ◌++◌, if◌then◌else◌,
}
use localsend_rs.Protocol.{Text, text_eq}
use localsend_rs.Error.{bytes, LocalSendError}
use localsend_rs.Error
use localsend_rs.PathSafety.{safe_join}
use localsend_rs.Sink.Names.{collision_leaf, max_collision_attempts, decimal}
use localsend_rs.Sink.Disk.{
  FilePath, file, directory, symlink, Disk, set, Faults, opened, already_exists, broken, open_new,
  delete, move,
}

pub data SinkError : Type 0 where
  rejected failed : Text → SinkError

pub data Outcome (A : Type 0) : Type 0 where
  done : A → Outcome A
  fails : SinkError → Outcome A

-- A path's parent and its last name.
unfoldable pub split_last : FilePath → Option (FilePath × Text)
split_last [] = none
split_last (s ∷ p) = elim (split_last p) [
  | none ↦ some ([], s)
  | some (parent, leaf) ↦ some (s ∷ parent, leaf)
]

-- `strip_prefix`.
unfoldable pub strip_prefix : FilePath → FilePath → Option FilePath
strip_prefix [] p = some p
strip_prefix (s ∷ root) [] = none
strip_prefix (s ∷ root) (t ∷ p) =
    let rest = strip_prefix root p in if text_eq s t then rest else none

abbrev pub display : FilePath → Text
display [] = []
display (s ∷ p) = b'/' ∷ (s ++ display p)

-- The loop over the components below the root, which are plain names here.
unfoldable pub walk : Faults → FilePath → List Text → Disk → Disk × Option SinkError
walk faults current [] disk = (disk, none)
walk faults current (name ∷ names) disk =
    let path = current ++ name ∷ [] in
    let deeper = walk faults path names disk in
    let created = walk faults path names (set path (some directory) disk) in
    elim (faults.symlink_metadata path) [
      | some reason ↦ (disk, some (failed reason))
      | none ↦ elim (disk path) [
        | some directory ↦ deeper
        | some symlink ↦ (disk, some (rejected (display path ++ bytes " is not a directory")))
        | some (file _) ↦ (disk, some (rejected (display path ++ bytes " is not a directory")))
        | none ↦ elim (faults.create_dir path) [
          | some reason ↦ (disk, some (failed reason))
          | none ↦ created
        ]
      ]
    ]

unfoldable pub walk_or_create_directory :
    Faults → FilePath → FilePath → Disk → Disk × Option SinkError
unfolding strip_prefix walk
walk_or_create_directory faults root dir disk = elim (strip_prefix root dir) [
  | none ↦ (disk, some (rejected (bytes "a destination outside the receive root")))
  | some names ↦ walk faults root names disk
]

abbrev pub candidate : Text → ℕ → Text
candidate leaf zero = leaf
candidate leaf (suc n) = collision_leaf leaf (suc n)

-- The loop from an attempt on, with the attempts that are left.
unfoldable pub reserve_from : Faults → FilePath → Text → ℕ → ℕ → Disk → Disk × Outcome FilePath
unfolding open_new
reserve_from faults dir leaf attempt zero disk = (
  disk,
  fails (
      failed (
        decimal max_collision_attempts
        ++ (bytes " names beginning \"" ++ (leaf ++ bytes "\" are all taken")))),
)
reserve_from faults dir leaf attempt (suc left) disk =
    let path = dir ++ candidate leaf attempt ∷ [] in
    let rest = reserve_from faults dir leaf (suc attempt) left disk in
    let (disk', result) = open_new faults path disk in
    elim result [
      | opened ↦ (disk', done path)
      | already_exists ↦ rest
      | broken reason ↦ (disk', fails (failed reason))
    ]

unfoldable pub reserve_free_name : Faults → FilePath → Text → Disk → Disk × Outcome FilePath
unfolding reserve_from
reserve_free_name faults dir leaf disk =
    reserve_from faults dir leaf 0 (suc max_collision_attempts) disk

-- `temp` says whether the pending file still owns its handle.
pub record AtomicPendingFile : Type 0 where
  pub temp : Bool
  pub temp_path : FilePath
  pub final_path : FilePath

abbrev pub temp_name : Text → Text
temp_name unique = bytes ".localsend-" ++ (unique ++ bytes ".part")

unfoldable pub open_temp :
    Faults → FilePath → Text → FilePath → Disk → Disk × Outcome AtomicPendingFile
unfolding open_new
open_temp faults dir unique final_path disk =
    let temp_path = dir ++ temp_name unique ∷ [] in
    let (disk', result) = open_new faults temp_path disk in
    elim result [
      | opened ↦
          (disk', done (record { temp = true; temp_path = temp_path; final_path = final_path }))
      | already_exists ↦ (disk', fails (failed (bytes "File exists")))
      | broken reason ↦ (disk', fails (failed reason))
    ]

-- `create` from the directory and the leaf on.
unfoldable pub create_in :
    Faults → FilePath → FilePath → Text → Text → Disk → Disk × Outcome AtomicPendingFile
unfolding walk_or_create_directory reserve_free_name open_temp
create_in faults save_dir dir leaf unique disk =
    let (walked, stop) = walk_or_create_directory faults save_dir dir disk in
    elim stop [
      | some e ↦ (walked, fails e)
      | none ↦
          let (reserved, name) = reserve_free_name faults dir leaf walked in
          elim name [
            | fails e ↦ (reserved, fails e)
            | done final_path ↦ open_temp faults dir unique final_path reserved
          ]
    ]

unfoldable pub create :
    Faults
    → (LocalSendError → Text)
    → FilePath
    → Text
    → Text
    → Disk
    → Disk × Outcome AtomicPendingFile
unfolding safe_join split_last create_in
create faults to_string save_dir file_name unique disk = elim (safe_join save_dir file_name) [
  | Error.err e ↦ (disk, fails (rejected (to_string e)))
  | Error.ok joined ↦ elim (split_last joined) [
    | none ↦ (disk, fails (rejected (bytes "a file name with no parent")))
    | some (dir, leaf) ↦ create_in faults save_dir dir leaf unique disk
  ]
]

-- What the writer does to the temporary.
unfoldable pub write_chunk : Text → AtomicPendingFile → Disk → Disk
write_chunk chunk p disk = elim (disk p.temp_path) [
  | some (file contents) ↦ set p.temp_path (some (file (contents ++ chunk))) disk
  | _ ↦ disk
]

unfoldable pub write_all : List Text → AtomicPendingFile → Disk → Disk
unfolding write_chunk
write_all [] p disk = disk
write_all (chunk ∷ chunks) p disk = write_all chunks p (write_chunk chunk p disk)

-- `commit`. What is returned is what `drop` sees then: the handle is gone from the first step on.
unfoldable pub commit :
    Faults → AtomicPendingFile → Disk → Disk × AtomicPendingFile × Outcome FilePath
unfolding move
commit faults p disk =
    let taken = record p { temp = false } in
    elim faults.flush [
      | some reason ↦ (disk, taken, fails (failed reason))
      | none ↦ elim faults.sync_all [
        | some reason ↦ (disk, taken, fails (failed reason))
        | none ↦
            let (disk', result) = move faults p.temp_path p.final_path disk in
            elim result [
              | some reason ↦ (disk', taken, fails (failed reason))
              | none ↦ (disk', taken, done p.final_path)
            ]
      ]
    ]

abbrev pub first_error : Option Text → Option Text → Option SinkError
first_error (some reason) _ = some (failed reason)
first_error none (some reason) = some (failed reason)
first_error none none = none

unfoldable pub abort :
    Faults → Text → AtomicPendingFile → Disk → Disk × AtomicPendingFile × Option SinkError
unfolding delete
abort faults missing p disk =
    let (disk', temp) = delete faults missing p.temp_path disk in
    let (disk'', reservation) = delete faults missing p.final_path disk' in
    (disk'', record p { temp = false }, first_error temp reservation)

unfoldable pub drop_pending : Faults → Text → AtomicPendingFile → Disk → Disk
unfolding delete
drop_pending faults missing p disk =
    if p.temp
    then (delete faults missing p.final_path (delete faults missing p.temp_path disk).0).0
    else disk
