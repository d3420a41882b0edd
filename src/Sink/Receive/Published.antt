-- ===== src/Sink/Receive/Published.antt =====
-- core/sink.rs: a received file from its creation to its publication or its end.
use localsend_rs.Base.{
  ◌≡◌, inl, inr, refl, sym, ap, ◌∙◌, subst, arith, Bool, true, false, none, some, ◌&&◌, List, [],
  ◌∷◌, ◌++◌, Bool-cases, if◌then◌else◌,
}
use mathlib.Core.List.{append-nil, append_assoc}
use localsend_rs.Protocol.{Text}
use localsend_rs.Sink.Disk.{
  FilePath, Node, file, Disk, set, set-at, path_eq, path_eq_iff, Faults, delete, move,
}
use localsend_rs.Sink.Receive.{
  done, AtomicPendingFile, write_chunk, write_all, commit, abort, drop_pending,
}
use localsend_rs.Sink.Receive.Created.{IsPending}

-- How the server ends with a pending file; the handle that is left is dropped in any case.
pub data Fate : Type 0 where
  commits aborts drops : Fate

abbrev pub is_commit : Fate → Bool
is_commit commits = true
is_commit aborts = false
is_commit drops = false

unfoldable pub finish : Faults → Text → Fate → AtomicPendingFile → Disk → Disk
unfolding commit abort drop_pending
finish faults missing commits p disk =
    let r = commit faults p disk in drop_pending faults missing r.1 r.0
finish faults missing aborts p disk =
    let r = abort faults missing p disk in drop_pending faults missing r.1 r.0
finish faults missing drops p disk = drop_pending faults missing p disk

abbrev pub concat : List Text → Text
concat [] = []
concat (t ∷ ts) = t ++ concat ts

-- The disk while a file is pending, with what was written to it.
pub record Holds (walked : Disk) (p : AtomicPendingFile) (contents : Text) (disk : Disk)
    : Type 0 where
  pub final_free : walked p.final_path ≡ none
  pub temp_free : walked p.temp_path ≡ none
  pub apart : path_eq p.temp_path p.final_path ≡ false
  pub at :
      (q : FilePath)
      → disk q ≡ (
          if path_eq p.temp_path q
          then some (file contents)
          else if path_eq p.final_path q
          then some (file [])
          else walked q)

path_eq_refl : (p : FilePath) → path_eq p p ≡ true
path_eq_refl p = (path_eq_iff p p).1 refl

path_eq_sym : (p q : FilePath) → path_eq p q ≡ path_eq q p
path_eq_sym p q = elim (Bool-cases (path_eq p q)) [
  | inl e ↦ ground (arith, e, sym ((path_eq_iff p q).0 e), path_eq_iff q p)
  | inr e ↦ elim (Bool-cases (path_eq q p)) [
    | inl e' ↦ ground (arith, e, sym ((path_eq_iff q p).0 e'), path_eq_iff p q)
    | inr e' ↦ e ∙ sym e'
  ]
]

pub IsPending-Holds :
    (walked disk : Disk) (p : AtomicPendingFile) → IsPending walked disk p → Holds walked p [] disk
IsPending-Holds walked disk p h =
    let look = set-at p.final_path p.temp_path (some (file [])) walked in
    record {
      final_free = h.final_free;
      temp_free = ground (arith, look, h.temp_free);
      apart = ground (arith, look, h.temp_free, path_eq_sym p.temp_path p.final_path);
      at = λ q.
          ap (λ d. d q) h.both
          ∙ ground (
            arith,
            set-at p.temp_path q (some (file [])) (set p.final_path (some (file [])) walked),
            set-at p.final_path q (some (file [])) walked,
          );
    }

write_chunk-Holds :
    (walked disk : Disk) (p : AtomicPendingFile) (contents chunk : Text)
    → Holds walked p contents disk
    → Holds walked p (contents ++ chunk) (write_chunk chunk p disk)
unfolding write_chunk
write_chunk-Holds walked disk p contents chunk h =
    let here : disk p.temp_path ≡ some (file contents) =
      ground (arith, h.at p.temp_path, path_eq_refl p.temp_path) in
    record {
      final_free = h.final_free;
      temp_free = h.temp_free;
      apart = h.apart;
      at = λ q.
          ground (arith, here, h.at q, set-at p.temp_path q (some (file (contents ++ chunk))) disk);
    }

pub write_all-Holds :
    (walked disk : Disk) (p : AtomicPendingFile) (contents : Text) (chunks : List Text)
    → Holds walked p contents disk
    → Holds walked p (contents ++ concat chunks) (write_all chunks p disk)
unfolding write_all
write_all-Holds walked disk p contents [] h =
    subst (λ t. Holds walked p t disk) (sym (append-nil contents)) h
write_all-Holds walked disk p contents (chunk ∷ chunks) h =
    subst (λ t. Holds walked p t (write_all (chunk ∷ chunks) p disk))
      (append_assoc contents chunk (concat chunks))
      (write_all-Holds walked (write_chunk chunk p disk) p (contents ++ chunk) chunks
        (write_chunk-Holds walked disk p contents chunk h))

-- A run in which the operating system fails no call that ends a pending file.
abbrev pub IsFaultless : Faults → Type 0
IsFaultless faults =
    ((path : FilePath) → faults.remove_file path ≡ none)
    × ((faults.flush ≡ none) × ((faults.sync_all ≡ none) × (faults.rename ≡ none)))

-- Both files of a pending file removed, and the temporary moved to the name.
abbrev pub cleared : AtomicPendingFile → Disk → Disk
cleared p disk = set p.final_path none (set p.temp_path none disk)

abbrev pub moved : AtomicPendingFile → Disk → Disk
moved p disk = set p.final_path (disk p.temp_path) (set p.temp_path none disk)

-- What a path that equals another holds is what the other holds.
pub walked-at : (walked : Disk) (p q : FilePath) → path_eq p q ≡ true → walked p ≡ walked q
walked-at walked p q same = ap walked ((path_eq_iff p q).0 same)

temp_gone-walked :
    (walked disk : Disk) (p : AtomicPendingFile) (contents : Text)
    → Holds walked p contents disk
    → (q : FilePath)
    → set p.temp_path none disk q ≡ (if path_eq p.final_path q then some (file []) else walked q)
temp_gone-walked walked disk p contents h q =
    let removed = set-at p.temp_path q none disk in
    elim (Bool-cases (path_eq p.temp_path q)) [
      | inr other ↦ ground (arith, removed, h.at q)
      | inl same ↦
          let away = walked-at walked p.temp_path q same in
          let not_final : path_eq p.final_path q ≡ false =
            ap (λ t. path_eq p.final_path t) (sym ((path_eq_iff p.temp_path q).0 same))
            ∙ (path_eq_sym p.final_path p.temp_path ∙ h.apart) in
          ground (arith, removed, away, not_final, h.temp_free)
    ]

cleared-walked :
    (walked disk : Disk) (p : AtomicPendingFile) (contents : Text)
    → Holds walked p contents disk
    → (q : FilePath) → cleared p disk q ≡ walked q
cleared-walked walked disk p contents h q =
    let removed = set-at p.final_path q none (set p.temp_path none disk) in
    let rest = temp_gone-walked walked disk p contents h q in
    elim (Bool-cases (path_eq p.final_path q)) [
      | inr other ↦ ground (arith, removed, rest)
      | inl same ↦ ground (arith, removed, walked-at walked p.final_path q same, h.final_free)
    ]

moved-walked :
    (walked disk : Disk) (p : AtomicPendingFile) (contents : Text)
    → Holds walked p contents disk
    → (q : FilePath)
    → moved p disk q ≡ (if path_eq p.final_path q then some (file contents) else walked q)
moved-walked walked disk p contents h q =
    let here : disk p.temp_path ≡ some (file contents) =
      ground (arith, h.at p.temp_path, path_eq_refl p.temp_path) in
    ground (
      arith,
      set-at p.final_path q (disk p.temp_path) (set p.temp_path none disk),
      temp_gone-walked walked disk p contents h q,
      here,
    )

commit-moved :
    (faults : Faults) (p : AtomicPendingFile) (disk : Disk)
    → IsFaultless faults
    → commit faults p disk ≡ (moved p disk, record p { temp = false }, done p.final_path)
unfolding commit move
commit-moved faults p disk (removes, (flushes, (syncs, renames))) =
    ground (arith, flushes, syncs, renames)

delete-done :
    (faults : Faults) (missing : Text) (path : FilePath) (disk : Disk) (n : Node)
    → faults.remove_file path ≡ none
    → disk path ≡ some n
    → delete faults missing path disk ≡ (set path none disk, none)
unfolding delete
delete-done faults missing path disk n removes held = ground (arith, removes, held)

removals :
    (faults : Faults) (missing : Text) (walked disk : Disk) (p : AtomicPendingFile)
    (contents : Text)
    → Holds walked p contents disk
    → IsFaultless faults
    → (delete faults missing p.temp_path disk ≡ (set p.temp_path none disk, none))
      × (delete faults missing p.final_path (set p.temp_path none disk) ≡ (cleared p disk, none))
removals faults missing walked disk p contents h (removes, _) = (
  delete-done faults missing p.temp_path disk (file contents) (removes p.temp_path)
      (ground (arith, h.at p.temp_path, path_eq_refl p.temp_path)),
  delete-done faults missing p.final_path (set p.temp_path none disk) (file [])
      (removes p.final_path)
      (ground
        (arith, temp_gone-walked walked disk p contents h p.final_path, path_eq_refl p.final_path)),
)

removed-walked :
    (faults : Faults) (missing : Text) (walked disk : Disk) (p : AtomicPendingFile)
    (contents : Text)
    → Holds walked p contents disk
    → IsFaultless faults
    → (q : FilePath)
    → (delete faults missing p.final_path (delete faults missing p.temp_path disk).0).0 q ≡ walked q
removed-walked faults missing walked disk p contents h fine q =
    let (first, second) = removals faults missing walked disk p contents h fine in
    ap (λ r. (delete faults missing p.final_path r.0).0 q) first
    ∙ (ap (λ r. r.0 q) second ∙ cleared-walked walked disk p contents h q)

-- What a pending file leaves when it ends, the operating system failing nothing: committed, its
-- bytes under its name, and aborted or dropped, nothing.
pub finish-walked :
    (faults : Faults) (missing : Text) (fate : Fate) (walked disk : Disk) (p : AtomicPendingFile)
    (contents : Text)
    → p.temp ≡ true
    → Holds walked p contents disk
    → IsFaultless faults
    → (q : FilePath)
    → finish faults missing fate p disk q
      ≡ (if path_eq p.final_path q && is_commit fate then some (file contents) else walked q)
unfolding finish drop_pending abort
finish-walked faults missing commits walked disk p contents owned h fine q =
    ap (λ r. drop_pending faults missing r.1 r.0 q) (commit-moved faults p disk fine)
    ∙ (moved-walked walked disk p contents h q ∙ ground arith)
finish-walked faults missing aborts walked disk p contents owned h fine q =
    let run = removed-walked faults missing walked disk p contents h fine q in ground (arith, run)
finish-walked faults missing drops walked disk p contents owned h fine q =
    let run = removed-walked faults missing walked disk p contents h fine q in
    let dropped : drop_pending faults missing p disk
        ≡ (delete faults missing p.final_path (delete faults missing p.temp_path disk).0).0 =
      ground (arith, owned) in
    ap (λ d. d q) dropped ∙ (run ∙ ground arith)
