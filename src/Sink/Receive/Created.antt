-- ===== src/Sink/Receive/Created.antt =====
-- core/sink.rs: what `create` does to the disk.
use localsend_rs.Base.{
  ℕ, zero, suc, ◌≡◌, ◌≢◌, ◌⊎◌, inl, inr, refl, sym, ap, ◌∙◌, subst, arith, true, none, some, List,
  [], ◌∷◌, ◌++◌, Bool-cases, Option-cases,
}
use localsend_rs.Protocol.{Text}
use localsend_rs.Sink.Names.{max_collision_attempts}
use localsend_rs.Error.{bytes, LocalSendError, Result}
use localsend_rs.Error
use localsend_rs.PathSafety.{safe_join}
use localsend_rs.Sink.Disk.{
  FilePath, file, directory, Disk, set, set-at, set-Keeps, Keeps, Keeps-trans, path_eq, path_eq_iff,
  Faults, Opened, opened, already_exists, broken, open_new,
}
use localsend_rs.Sink.Receive.{
  SinkError, rejected, failed, Outcome, done, fails, split_last, strip_prefix, walk,
  walk_or_create_directory, candidate, reserve_from, reserve_free_name, AtomicPendingFile,
  temp_name, open_temp, create_in, create,
}

-- A file that was created at a free path.
abbrev pub IsNew : FilePath → Disk → Disk → Type 0
IsNew path disk disk' = (disk path ≡ none) × (disk' ≡ set path (some (file [])) disk)

pub Outcome-cases :
    {A : Type 0} (o : Outcome A) → ((a : A) × (o ≡ done a)) ⊎ ((e : SinkError) × (o ≡ fails e))
Outcome-cases (done a) = inl (a, refl)
Outcome-cases (fails e) = inr (e, refl)

Opened-cases :
    (o : Opened) → (o ≡ opened) ⊎ ((o ≡ already_exists) ⊎ ((reason : Text) × (o ≡ broken reason)))
Opened-cases opened = inl refl
Opened-cases already_exists = inr (inl refl)
Opened-cases (broken reason) = inr (inr (reason, refl))

-- A call that opens a new file finds its path free; a call that does not leaves the disk.
pub open_new-IsNew :
    (faults : Faults) (path : FilePath) (disk : Disk)
    → (((open_new faults path disk).1 ≡ opened) × IsNew path disk (open_new faults path disk).0)
      ⊎ (((open_new faults path disk).1 ≢ opened) × ((open_new faults path disk).0 ≡ disk))
unfolding open_new
open_new-IsNew faults path disk = elim (Option-cases (faults.create_new path)) [
  | inr (reason, e) ↦ inr (ground (arith, e), ground (arith, e))
  | inl fine ↦ elim (Option-cases (disk path)) [
    | inl free ↦ inl (ground arith, (free, ground arith))
    | inr (n, taken) ↦ inr (ground arith, ground arith)
  ]
]

-- The outcome of a step that creates one file, or fails and leaves the disk.
abbrev pub IsReserved : Disk → Disk × Outcome FilePath → Type 0
IsReserved disk r =
    ((path : FilePath) × ((r.1 ≡ done path) × IsNew path disk r.0))
    ⊎ ((e : SinkError) × ((r.1 ≡ fails e) × (r.0 ≡ disk)))

pub reserve_from-IsReserved :
    (faults : Faults) (dir : FilePath) (leaf : Text) (attempt left : ℕ) (disk : Disk)
    → IsReserved disk (reserve_from faults dir leaf attempt left disk)
unfolding reserve_from
reserve_from-IsReserved faults dir leaf attempt zero disk = inr (_, (refl, refl))
reserve_from-IsReserved faults dir leaf attempt (suc left) disk =
    let path = dir ++ candidate leaf attempt ∷ [] in
    let now = reserve_from faults dir leaf attempt (suc left) disk in
    let later = reserve_from faults dir leaf (suc attempt) left disk in
    elim (open_new-IsNew faults path disk) [
      | inl (e, (free, new)) ↦ inl (path, (ground (arith, e), (free, ground (arith, e, new))))
      | inr (other, kept) ↦ elim (Opened-cases (open_new faults path disk).1) [
        | inl e ↦ absurd (other e)
        | inr (inl e) ↦
            let same : later ≡ now = ground arith in
            subst (λ r. IsReserved disk r) same
              (reserve_from-IsReserved faults dir leaf (suc attempt) left disk)
        | inr (inr (reason, e)) ↦ inr (failed reason, (ground (arith, e), ground (arith, e, kept)))
      ]
    ]

pub reserve-IsReserved :
    (faults : Faults) (dir : FilePath) (leaf : Text) (disk : Disk)
    → IsReserved disk (reserve_free_name faults dir leaf disk)
unfolding reserve_free_name
reserve-IsReserved faults dir leaf disk =
    reserve_from-IsReserved faults dir leaf 0 (suc max_collision_attempts) disk

-- A disk with some directories more than another, and no other change.
abbrev pub AddsDirectories : Disk → Disk → Type 0
AddsDirectories disk walked =
    (q : FilePath) → (walked q ≡ disk q) ⊎ ((disk q ≡ none) × (walked q ≡ some directory))

pub AddsDirectories-Keeps : (disk walked : Disk) → AddsDirectories disk walked → Keeps disk walked
AddsDirectories-Keeps disk walked adds q n e = ground (arith, adds q, e)

pub AddsDirectories-set :
    (path : FilePath) (disk walked : Disk)
    → disk path ≡ none
    → AddsDirectories (set path (some directory) disk) walked
    → AddsDirectories disk walked
AddsDirectories-set path disk walked free adds q = elim (Bool-cases (path_eq path q)) [
  | inr other ↦ ground (arith, adds q, set-at path q (some directory) disk)
  | inl same ↦
      let here : disk path ≡ disk q = ap disk ((path_eq_iff path q).0 same) in
      ground (arith, adds q, set-at path q (some directory) disk, here)
]

pub walk-AddsDirectories :
    (faults : Faults) (current : FilePath) (names : List Text) (disk : Disk)
    → AddsDirectories disk (walk faults current names disk).0
unfolding walk
walk-AddsDirectories faults current [] disk q = inl refl
walk-AddsDirectories faults current (name ∷ names) disk q =
    let path = current ++ name ∷ [] in
    let created = set path (some directory) disk in
    elim (Option-cases (disk path)) [
      | inl free ↦ ground (
        arith,
        AddsDirectories-set path disk (walk faults path names created).0 free
            (walk-AddsDirectories faults path names created) q,
      )
      | inr (n, taken) ↦ ground (arith, walk-AddsDirectories faults path names disk q)
    ]

walk_or_create-AddsDirectories :
    (faults : Faults) (root dir : FilePath) (disk : Disk)
    → AddsDirectories disk (walk_or_create_directory faults root dir disk).0
unfolding walk_or_create_directory
walk_or_create-AddsDirectories faults root dir disk q =
    elim (Option-cases (strip_prefix root dir)) [
      | inl outside ↦ ground (arith, outside)
      | inr (names, below) ↦ ground (arith, walk-AddsDirectories faults root names disk q)
    ]

-- A file that waits for its bytes: its temporary and its name are new on a disk, and empty.
pub record IsPending (walked disk : Disk) (p : AtomicPendingFile) : Type 0 where
  pub owned : p.temp ≡ true
  pub final_free : walked p.final_path ≡ none
  pub temp_free : set p.final_path (some (file [])) walked p.temp_path ≡ none
  pub both : disk ≡ set p.temp_path (some (file [])) (set p.final_path (some (file [])) walked)

-- A file is pending, over what the walk left of the disk; or there is an error and nothing is lost.
abbrev pub IsCreated : Disk → Disk → Disk × Outcome AtomicPendingFile → Type 0
IsCreated disk walked r =
    ((p : AtomicPendingFile) × ((r.1 ≡ done p) × IsPending walked r.0 p))
    ⊎ ((e : SinkError) × ((r.1 ≡ fails e) × Keeps disk r.0))

-- Opening the temporary changes the disk as the call does, and fails if the call opens nothing.
open_temp-disk :
    (faults : Faults) (dir : FilePath) (unique : Text) (final_path : FilePath) (disk : Disk)
    → (open_temp faults dir unique final_path disk).0
      ≡ (open_new faults (dir ++ temp_name unique ∷ []) disk).0
unfolding open_temp
open_temp-disk faults dir unique final_path disk =
    elim (Opened-cases (open_new faults (dir ++ temp_name unique ∷ []) disk).1) [
      | inl e ↦ ground (arith, e)
      | inr (inl e) ↦ ground (arith, e)
      | inr (inr (reason, e)) ↦ ground (arith, e)
    ]

open_temp-fails :
    (faults : Faults) (dir : FilePath) (unique : Text) (final_path : FilePath) (disk : Disk)
    → (open_new faults (dir ++ temp_name unique ∷ []) disk).1 ≢ opened
    → (e : SinkError) × ((open_temp faults dir unique final_path disk).1 ≡ fails e)
unfolding open_temp
open_temp-fails faults dir unique final_path disk other =
    elim (Opened-cases (open_new faults (dir ++ temp_name unique ∷ []) disk).1) [
      | inl e ↦ absurd (other e)
      | inr (inl e) ↦ (failed (bytes "File exists"), ground (arith, e))
      | inr (inr (reason, e)) ↦ (failed reason, ground (arith, e))
    ]

open_temp-IsCreated :
    (faults : Faults) (dir : FilePath) (unique : Text) (final_path : FilePath)
    (before walked disk : Disk)
    → Keeps before walked
    → IsNew final_path walked disk
    → IsCreated before walked (open_temp faults dir unique final_path disk)
unfolding open_temp
open_temp-IsCreated faults dir unique final_path before walked disk kept (free, new) =
    let temp_path = dir ++ temp_name unique ∷ [] in
    let reserved : Keeps before disk =
      subst (λ d. Keeps before d) (sym new)
        (Keeps-trans before walked _ kept (set-Keeps final_path (file []) walked free)) in
    elim (open_new-IsNew faults temp_path disk) [
      | inl (e, (temp_free, both)) ↦ inl (
        record { temp = true; temp_path = temp_path; final_path = final_path },
        (
          ground (arith, e),
          record {
            owned = refl;
            final_free = free;
            temp_free = ap (λ d. d temp_path) (sym new) ∙ temp_free;
            both =
                open_temp-disk faults dir unique final_path disk
                ∙ (both ∙ ap (λ d. set temp_path (some (file [])) d) new);
          },
        ),
      )
      | inr (other, same) ↦
          let (reason, e) = open_temp-fails faults dir unique final_path disk other in
          inr (
            reason,
            (
              e,
              subst (λ d. Keeps before d)
                  (sym (open_temp-disk faults dir unique final_path disk ∙ same)) reserved,
            ),
          )
    ]

create_in-IsCreated :
    (faults : Faults) (save_dir dir : FilePath) (leaf unique : Text) (disk : Disk)
    → IsCreated disk
        (walk_or_create_directory faults save_dir dir disk).0
        (create_in faults save_dir dir leaf unique disk)
unfolding create_in
create_in-IsCreated faults save_dir dir leaf unique disk =
    let step = walk_or_create_directory faults save_dir dir disk in
    let walked = step.0 in
    let now = create_in faults save_dir dir leaf unique disk in
    let kept =
      AddsDirectories-Keeps disk walked (walk_or_create-AddsDirectories faults save_dir dir disk) in
    let reserved = reserve_free_name faults dir leaf walked in
    elim (Option-cases step.1) [
      | inr (e, stop) ↦
          let same : (walked, fails e) ≡ now = ground arith in
          subst (λ r. IsCreated disk walked r) same (inr (e, (refl, kept)))
      | inl fine ↦ elim (reserve-IsReserved faults dir leaf walked) [
        | inr (e, (failing, unchanged)) ↦
            let same : (reserved.0, fails e) ≡ now = ground arith in
            subst (λ r. IsCreated disk walked r) same
              (inr (e, (refl, subst (λ d. Keeps disk d) (sym unchanged) kept)))
        | inl (path, (e, new)) ↦
            let same : open_temp faults dir unique path reserved.0 ≡ now = ground arith in
            subst (λ r. IsCreated disk walked r) same
              (open_temp-IsCreated faults dir unique path disk walked reserved.0 kept new)
      ]
    ]

-- What a call of `create` comes to.
pub record CreateResult (disk : Disk) (r : Disk × Outcome AtomicPendingFile) : Type 0 where
  pub walked : Disk
  pub adds : AddsDirectories disk walked
  pub created : IsCreated disk walked r

pub create-CreateResult :
    (faults : Faults) (to_string : LocalSendError → Text) (save_dir : FilePath)
    (file_name unique : Text) (disk : Disk)
    → CreateResult disk (create faults to_string save_dir file_name unique disk)
unfolding create
create-CreateResult faults to_string save_dir file_name unique disk =
    let now = create faults to_string save_dir file_name unique disk in
    elim (safe_join-cases (safe_join save_dir file_name)) [
      | inl (e, refused) ↦
          let same : (disk, fails (rejected (to_string e))) ≡ now = ground arith in
          subst (λ r. CreateResult disk r) same
            (record {
              walked = disk;
              adds = λ q. inl refl;
              created = inr (_, (refl, λ q n held. held));
            })
      | inr (joined, e) ↦ elim (Option-cases (split_last joined)) [
        | inl e' ↦
            let same : (disk, fails (rejected (bytes "a file name with no parent"))) ≡ now =
              ground arith in
            subst (λ r. CreateResult disk r) same
              (record {
                walked = disk;
                adds = λ q. inl refl;
                created = inr (_, (refl, λ q n held. held));
              })
        | inr ((dir, leaf), e') ↦
            let same : create_in faults save_dir dir leaf unique disk ≡ now = ground arith in
            subst (λ r. CreateResult disk r) same
              (record {
                walked = (walk_or_create_directory faults save_dir dir disk).0;
                adds = walk_or_create-AddsDirectories faults save_dir dir disk;
                created = create_in-IsCreated faults save_dir dir leaf unique disk;
              })
      ]
    ]
  where
    safe_join-cases :
        (r : Result FilePath)
        → ((e : LocalSendError) × (r ≡ Error.err e)) ⊎ ((p : FilePath) × (r ≡ Error.ok p))
    safe_join-cases (Error.err e) = inl (e, refl)
    safe_join-cases (Error.ok p) = inr (p, refl)
