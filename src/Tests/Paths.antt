-- ===== src/Tests/Paths.antt =====
-- path_safety.rs: a name that is accepted.
use localsend_rs.Base.{◌≡◌, ◌≢◌, ◌↔◌, refl, List, [], ◌∷◌, ◌++◌, All}
use localsend_rs.Error.{bytes, ok}
use localsend_rs.Protocol.{Text, text_eq}
use localsend_rs.PathSafety.{safe_join, split}
use localsend_rs.PathSafety.Laws.{IsUsable, walk, safe_join_iff}
use localsend_rs.PathSafety.Stays.{IsPlainName, safe_join_stays}

abbrev base : List Text
base = bytes "downloads" ∷ []

abbrev joined : List Text
joined = bytes "downloads" ∷ bytes "folder" ∷ bytes "a.txt" ∷ []

safe_join_stays_example :
    (rel : List Text) × (joined ≡ base ++ rel) × (rel ≢ []) × All IsPlainName rel
unfolding safe_join split text_eq
safe_join_stays_example = safe_join_stays base (bytes "folder/./a.txt") joined refl

safe_join_iff_example : (safe_join base (bytes "folder/./a.txt") ≡ ok joined) ↔ (
    IsUsable (bytes "folder/./a.txt") × (joined ≡ walk base (split b'/' (bytes "folder/./a.txt"))))
safe_join_iff_example = safe_join_iff base (bytes "folder/./a.txt") joined
