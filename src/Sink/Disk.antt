-- ===== src/Sink/Disk.antt =====
-- The file system as core/sink.rs uses it. A path is the list of its names from the root on, and the
-- operating system may fail any call, for a reason that it gives.
use localsend_rs.Base.{
  ◌≡◌, ◌↔◌, refl, ap, inl, inr, Bool-cases, arith, Bool, true, false, ◌&&◌, Option, none, some,
  List, [], ◌∷◌, if◌then◌else◌, is_some,
}
use localsend_rs.Protocol.{Text, text_eq, text_eq_iff}

abbrev pub FilePath : Type 0
FilePath = List Text

pub data Node : Type 0 where
  file : Text → Node
  directory symlink : Node

abbrev pub Disk : Type 0
Disk = FilePath → Option Node

unfoldable pub path_eq : FilePath → FilePath → Bool
path_eq [] [] = true
path_eq (s ∷ p) (t ∷ q) = text_eq s t && path_eq p q
path_eq _ _ = false

pub path_eq_iff : (p q : FilePath) → (path_eq p q ≡ true) ↔ (p ≡ q)
unfolding path_eq
path_eq_iff [] [] = ground arith
path_eq_iff [] (t ∷ q) = ground arith
path_eq_iff (s ∷ p) [] = ground arith
path_eq_iff (s ∷ p) (t ∷ q) = ground (arith, text_eq_iff s t, path_eq_iff p q)

unfoldable pub set : FilePath → Option Node → Disk → Disk
set path entry disk = λ q. if path_eq path q then entry else disk q

pub set-at :
    (p q : FilePath) (n : Option Node) (disk : Disk)
    → set p n disk q ≡ (if path_eq p q then n else disk q)
unfolding set
set-at p q n disk = refl

-- Nothing that a disk held is gone or changed on another.
abbrev pub Keeps : Disk → Disk → Type 0
Keeps disk disk' = (q : FilePath) (n : Node) → disk q ≡ some n → disk' q ≡ some n

-- A write to a free path keeps everything.
pub set-Keeps :
    (p : FilePath) (n : Node) (disk : Disk) → disk p ≡ none → Keeps disk (set p (some n) disk)
set-Keeps p n disk free q m held = elim (Bool-cases (path_eq p q)) [
  | inr other ↦ ground (arith, set-at p q (some n) disk)
  | inl same ↦
      let here : disk p ≡ disk q = ap disk ((path_eq_iff p q).0 same) in ground (arith, held, here)
]

pub Keeps-trans : (a b c : Disk) → Keeps a b → Keeps b c → Keeps a c
Keeps-trans a b c ab bc q n e = bc q n (ab q n e)

-- Which calls the operating system fails.
pub record Faults : Type 0 where
  pub symlink_metadata : FilePath → Option Text
  pub create_dir : FilePath → Option Text
  pub create_new : FilePath → Option Text
  pub remove_file : FilePath → Option Text
  pub flush : Option Text
  pub sync_all : Option Text
  pub rename : Option Text

-- `OpenOptions::new().write(true).create_new(true).open(path)`.
pub data Opened : Type 0 where
  opened already_exists : Opened
  broken : Text → Opened

unfoldable pub open_new : Faults → FilePath → Disk → Disk × Opened
open_new faults path disk = elim (faults.create_new path) [
  | some reason ↦ (disk, broken reason)
  | none ↦
      if is_some (disk path)
      then (disk, already_exists)
      else (set path (some (file [])) disk, opened)
]

-- `remove_file`; `missing` is the error for a path that is not there.
unfoldable pub delete : Faults → Text → FilePath → Disk → Disk × Option Text
delete faults missing path disk = elim (faults.remove_file path) [
  | some reason ↦ (disk, some reason)
  | none ↦ if is_some (disk path) then (set path none disk, none) else (disk, some missing)
]

-- `rename`, which replaces what is at its target.
unfoldable pub move : Faults → FilePath → FilePath → Disk → Disk × Option Text
move faults from to disk = elim faults.rename [
  | some reason ↦ (disk, some reason)
  | none ↦ (set to (disk from) (set from none disk), none)
]
