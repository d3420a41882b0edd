-- ===== src/Sink/Receive/Walked.antt =====
-- core/sink.rs: the directories between the receiver's and a file.
use localsend_rs.Base.{
  ◌≡◌, ◌⊎◌, inl, inr, refl, ap, ◌∙◌, subst, arith, Option, none, some, List, [], ◌∷◌, ◌++◌,
  Option-cases,
}
use localsend_rs.Protocol.{Text}
use localsend_rs.Sink.Disk.{
  FilePath, Node, file, directory, symlink, Disk, set, set-at, path_eq_iff, Faults,
}
use localsend_rs.Sink.Receive.{walk, walk_or_create_directory, strip_prefix}
use localsend_rs.Sink.Receive.Created.{AddsDirectories-Keeps, walk-AddsDirectories}

-- Every name below a directory leads to a directory, and not to a link.
abbrev pub AreDirectories : FilePath → List Text → Disk → Type 0
AreDirectories current [] disk = Unit
AreDirectories current (name ∷ names) disk =
    (disk (current ++ name ∷ []) ≡ some directory)
    × AreDirectories (current ++ name ∷ []) names disk

walk-AreDirectories :
    (faults : Faults) (current : FilePath) (names : List Text) (disk : Disk)
    → (walk faults current names disk).1 ≡ none
    → AreDirectories current names (walk faults current names disk).0
unfolding walk
walk-AreDirectories faults current [] disk e = tt
walk-AreDirectories faults current (name ∷ names) disk e =
    let path = current ++ name ∷ [] in
    let created = set path (some directory) disk in
    elim (Option-cases (faults.symlink_metadata path)) [
      | inr (reason, e') ↦ absurd (ground (arith, e))
      | inl fine ↦ elim (Node-cases (disk path)) [
        | inl there ↦
            let same : walk faults path names disk ≡ walk faults current (name ∷ names) disk =
              ground arith in
            subst (λ r. AreDirectories current (name ∷ names) r.0) same
              (
                AddsDirectories-Keeps disk _ (walk-AddsDirectories faults path names disk) path
                    directory there,
                walk-AreDirectories faults path names disk (ap (λ r. r.1) same ∙ e),
              )
        | inr (inl free) ↦ elim (Option-cases (faults.create_dir path)) [
          | inr (reason, e') ↦ absurd (ground (arith, e))
          | inl works ↦
              let same : walk faults path names created ≡ walk faults current (name ∷ names) disk =
                ground arith in
              let new : created path ≡ some directory =
                ground
                  (arith, set-at path path (some directory) disk, (path_eq_iff path path).1 refl) in
              subst (λ r. AreDirectories current (name ∷ names) r.0) same
                (
                  AddsDirectories-Keeps created _ (walk-AddsDirectories faults path names created)
                      path directory new,
                  walk-AreDirectories faults path names created (ap (λ r. r.1) same ∙ e),
                )
        ]
        | inr (inr (inl link)) ↦ absurd (ground (arith, e))
        | inr (inr (inr (contents, e'))) ↦ absurd (ground (arith, e))
      ]
    ]
  where
    Node-cases :
        (o : Option Node)
        → (o ≡ some directory)
          ⊎ ((o ≡ none) ⊎ ((o ≡ some symlink) ⊎ ((t : Text) × (o ≡ some (file t)))))
    Node-cases none = inr (inl refl)
    Node-cases (some directory) = inl refl
    Node-cases (some symlink) = inr (inr (inl refl))
    Node-cases (some (file t)) = inr (inr (inr (t, refl)))

-- Where the walk to an upload's directory succeeds, the directory is below the receiver's, and every
-- name between the two leads to a directory of the disk, and not to a link.
pub walk_or_create-AreDirectories :
    (faults : Faults) (root dir : FilePath) (disk : Disk)
    → (walk_or_create_directory faults root dir disk).1 ≡ none
    → (names : List Text) × ((strip_prefix root dir ≡ some names)
        × AreDirectories root names (walk_or_create_directory faults root dir disk).0)
unfolding walk_or_create_directory
walk_or_create-AreDirectories faults root dir disk e = elim (Option-cases (strip_prefix root dir)) [
  | inl outside ↦ absurd (ground (arith, e))
  | inr (names, below) ↦
      let same : walk faults root names disk ≡ walk_or_create_directory faults root dir disk =
        ground arith in
      (
        names,
        (
          below,
          subst (λ r. AreDirectories root names r.0) same
              (walk-AreDirectories faults root names disk (ap (λ r. r.1) same ∙ e)),
        ),
      )
]
