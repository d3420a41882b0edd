-- ===== src/Sink/Receive/Named.antt =====
-- core/sink.rs: what the name is that `reserve_free_name` takes.
use localsend_rs.Base.{ℕ, ◌≤◌, ◌≡◌, ◌⊎◌, [], ◌∷◌, ◌++◌, length}
use localsend_rs.Protocol.{Text}
use localsend_rs.Sink.Names.Numbered.{IsNumbered}
use localsend_rs.Sink.Disk.{FilePath, Disk}

-- The offered name, or a numbered one that fits a path component.
abbrev pub IsOfSeries : Text → Text → Type 0
IsOfSeries leaf name =
    (name ≡ leaf)
    ⊎ ((n : ℕ) × ((1 ≤ n) × ((n ≤ 1024) × (IsNumbered leaf n name × (length name ≤ 255)))))

abbrev pub IsNamed : FilePath → Text → FilePath → Type 0
IsNamed dir leaf path = (name : Text) × ((path ≡ dir ++ name ∷ []) × IsOfSeries leaf name)
