-- ===== src/PathSafety/Laws.antt =====
-- path_safety.rs: which remote names are accepted, and where the joined path lies.
use localsend_rs.Base.{
  ◌≡◌, ◌≢◌, ◌↔◌, refl, Bool, true, false, ◌||◌, not, List, [], ◌∷◌, ◌++◌, if◌then◌else◌, any,
  retain, arith, inl, inr, Bool-cases, ◌∙◌, sym,
}
use mathlib.Core.List.{append_assoc, append-nil}
use localsend_rs.Protocol.{Text, text_eq, is_empty}
use localsend_rs.Error.{ok, err}
use localsend_rs.PathSafety.{
  Component, prefix, root_dir, cur_dir, parent_dir, normal, split, is_dot, is_dot_dot, parse_pieces,
  parse_first, has_root, components, unsafe_name, push_components, has_bad_byte, join_relative,
  safe_join,
}

abbrev is_escape : Component → Bool
is_escape (normal _) = false
is_escape cur_dir = false
is_escape _ = true

abbrev normals : List Component → List Text
normals [] = []
normals (normal part ∷ cs) = part ∷ normals cs
normals (_ ∷ cs) = normals cs

push_components_lem :
    (name : Text) (cs : List Component) (rel : List Text)
    → push_components name cs rel
      ≡ (if any is_escape cs then err (unsafe_name name) else ok (rel ++ normals cs))
unfolding push_components
push_components_lem name [] rel = rw append-nil
push_components_lem name (normal part ∷ cs) rel =
    push_components_lem name cs (rel ++ part ∷ []) ∙ rw append_assoc
push_components_lem name (cur_dir ∷ cs) rel = push_components_lem name cs rel
push_components_lem name (parent_dir ∷ cs) rel = refl
push_components_lem name (root_dir ∷ cs) rel = refl
push_components_lem name (prefix _ ∷ cs) rel = refl

-- A piece that names an entry of a directory.
abbrev pub is_ordinary : Text → Bool
is_ordinary s = not (is_empty s || is_dot s || is_dot_dot s)

dot_ne : (s : Text) → is_dot s ≡ true → is_dot_dot s ≡ false
unfolding text_eq
dot_ne [] h = cc
dot_ne (a ∷ []) h = ground arith
dot_ne (a ∷ b ∷ s) h = ground arith

empty_piece : (is_dot [] ≡ false) × (is_dot_dot [] ≡ false)
unfolding text_eq
empty_piece = (refl, refl)

pieces_lem :
    (ss : List Text)
    → (any is_escape (parse_pieces ss) ≡ any is_dot_dot ss)
      × (any is_dot_dot ss ≡ false → normals (parse_pieces ss) ≡ retain is_ordinary ss)
unfolding parse_pieces
pieces_lem [] = (refl, λ h. refl)
pieces_lem ([] ∷ ss) = ground (arith, empty_piece, pieces_lem ss)
pieces_lem ((a ∷ s) ∷ ss) = ground (arith, dot_ne (a ∷ s), pieces_lem ss)

first_lem :
    (ss : List Text)
    → (any is_escape (parse_first ss) ≡ any is_dot_dot ss)
      × (any is_dot_dot ss ≡ false → normals (parse_first ss) ≡ retain is_ordinary ss)
unfolding parse_first
first_lem [] = (refl, λ h. refl)
first_lem ([] ∷ ss) = rw (empty_piece.0, parse_first) (pieces_lem ([] ∷ ss))
first_lem ((a ∷ s) ∷ ss) = elim (Bool-cases (is_dot (a ∷ s))) [
  | inl dot ↦ ground (arith, dot_ne (a ∷ s), pieces_lem ss)
  | inr other ↦ ground (arith, pieces_lem ((a ∷ s) ∷ ss))
]

-- The walk from a directory along the pieces of a path: an empty piece and `.` stay, `..` goes to
-- the parent, any other piece goes to that entry.
abbrev pub parent : List Text → List Text
parent [] = []
parent (x ∷ []) = []
parent (x ∷ y ∷ xs) = x ∷ parent (y ∷ xs)

pub walk : List Text → List Text → List Text
walk at [] = at
walk at (s ∷ ss) =
    walk (if is_empty s || is_dot s then at else if is_dot_dot s then parent at else at ++ s ∷ [])
      ss

pub walk-eq-retain :
    (at : List Text) (ss : List Text)
    → any is_dot_dot ss ≡ false
    → walk at ss ≡ at ++ retain is_ordinary ss
unfolding walk
walk-eq-retain at [] h = rw append-nil
walk-eq-retain at (s ∷ ss) h = ground (
  arith,
  walk-eq-retain at ss,
  walk-eq-retain (at ++ s ∷ []) ss,
  append_assoc at (s ∷ []) (retain is_ordinary ss),
)

-- What makes a name unusable: no byte, a forbidden byte, a leading slash, a piece `..`, or no piece
-- that names anything.
abbrev pub IsUsable : Text → Type 0
IsUsable name =
    (is_empty name ≡ false)
    × (has_bad_byte name ≡ false)
    × (has_root name ≡ false)
    × (any is_dot_dot (split b'/' name) ≡ false)
    × (retain is_ordinary (split b'/' name) ≢ [])

push_name :
    (name : Text)
    → has_root name ≡ false
    → push_components name (components name) [] ≡ (
        if any is_dot_dot (split b'/' name)
        then err (unsafe_name name)
        else ok (retain is_ordinary (split b'/' name)))
unfolding components
push_name name relative = ground (
  arith,
  push_components_lem name (parse_first (split b'/' name)) [],
  first_lem (split b'/' name),
)

join_relative_iff :
    (base : List Text) (name : Text) (rel p : List Text)
    → (join_relative base name rel ≡ ok p) ↔ ((rel ≢ []) × (p ≡ base ++ rel))
unfolding join_relative
join_relative_iff base name [] p = (λ h. cc, λ h. absurd (h.0 refl))
join_relative_iff base name (r ∷ rs) p = (λ h. (λ e. cc, cc), λ h. cc)

safe_join_checked :
    (base : List Text) (name : Text)
    → is_empty name ≡ false
    → has_bad_byte name ≡ false
    → has_root name ≡ false
    → any is_dot_dot (split b'/' name) ≡ false
    → safe_join base name ≡ join_relative base name (retain is_ordinary (split b'/' name))
unfolding safe_join
safe_join_checked base name e b r d = ground (arith, push_name name)

safe_join_refused :
    (base : List Text) (name : Text) (p : List Text)
    → safe_join base name ≡ ok p
    → (is_empty name ≡ false)
      × (has_bad_byte name ≡ false)
      × (has_root name ≡ false)
      × (any is_dot_dot (split b'/' name) ≡ false)
unfolding safe_join
safe_join_refused base name p h = ground (arith, push_name name)

-- A remote name is accepted exactly if it is usable, and the joined path is where the walk from the
-- receiver's directory along the name leads.
pub safe_join_iff :
    (base : List Text) (name : Text) (p : List Text)
    → (safe_join base name ≡ ok p) ↔ (IsUsable name × (p ≡ walk base (split b'/' name)))
safe_join_iff base name p = (
  accepted,
  λ (u, e).
      safe_join_checked base name u.0 u.1 u.2 u.3
      ∙ (join_relative_iff base name (retain is_ordinary (split b'/' name)) p).1
          (u.4, e ∙ walk-eq-retain base (split b'/' name) u.3),
)
  where
    accepted : safe_join base name ≡ ok p → IsUsable name × (p ≡ walk base (split b'/' name))
    accepted h =
        let (e, b, r, d) = safe_join_refused base name p h in
        let (ne, q) =
          (join_relative_iff base name (retain is_ordinary (split b'/' name)) p).0
            (sym (safe_join_checked base name e b r d) ∙ h) in
        ((e, b, r, d, ne), q ∙ sym (walk-eq-retain base (split b'/' name) d))
