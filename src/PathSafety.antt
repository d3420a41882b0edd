-- ===== src/PathSafety.antt =====
-- path_safety.rs: a remote file name joined to the receiver's directory. A path is the list of its
-- names from the root of the file system down; `components` is that of `std::path` on Unix.
pub mod Laws
pub mod Stays
use localsend_rs.Base.{
  ℕ, Bool, false, ◌||◌, Option, none, some, List, [], ◌∷◌, ◌++◌, ◌==◌, if◌then◌else◌, contains,
}
use localsend_rs.Protocol.{Text, text_eq, is_empty}
use localsend_rs.Error.{bytes, Result, ok, err, invalid_file, LocalSendError}

pub data Component : Type 0 where
  prefix : Text → Component
  root_dir cur_dir parent_dir : Component
  normal : Text → Component

pub push_front : ℕ → List Text → List Text
push_front c [] = (c ∷ []) ∷ []
push_front c (w ∷ ws) = (c ∷ w) ∷ ws

-- `str::split` at a separator.
unfoldable pub split : ℕ → Text → List Text
unfolding push_front
split sep [] = [] ∷ []
split sep (c ∷ s) = let rest = split sep s in if c == sep then [] ∷ rest else push_front c rest

abbrev pub is_dot : Text → Bool
is_dot s = text_eq s (b'.' ∷ [])

abbrev pub is_dot_dot : Text → Bool
is_dot_dot s = text_eq s (b'.' ∷ b'.' ∷ [])

-- A piece between two slashes; an empty one and `.` are no component.
abbrev pub parse_piece : Text → Option Component
parse_piece s =
    if is_empty s || is_dot s
    then none
    else if is_dot_dot s
    then some parent_dir
    else some (normal s)

abbrev pub cons_some {ℓ} : {A : Type ℓ} → Option A → List A → List A
cons_some none xs = xs
cons_some (some x) xs = x ∷ xs

pub parse_pieces : List Text → List Component
parse_pieces [] = []
parse_pieces (s ∷ ss) = cons_some (parse_piece s) (parse_pieces ss)

-- The first piece of a relative path: a leading `.` is a component.
pub parse_first : List Text → List Component
unfolding parse_pieces
parse_first [] = []
parse_first (s ∷ ss) = if is_dot s then cur_dir ∷ parse_pieces ss else parse_pieces (s ∷ ss)

abbrev pub has_root : Text → Bool
has_root [] = false
has_root (c ∷ s) = c == b'/'

pub components : Text → List Component
unfolding parse_first parse_pieces
components name =
    if has_root name
    then root_dir ∷ parse_pieces (split b'/' name)
    else parse_first (split b'/' name)

pub unsafe_name : Text → LocalSendError
unsafe_name name = invalid_file (bytes "Unsafe remote file name: " ++ name)

-- The loop over the components, with the name for its error.
pub push_components : Text → List Component → List Text → Result (List Text)
unfolding unsafe_name
push_components name [] relative = ok relative
push_components name (normal part ∷ cs) relative = push_components name cs (relative ++ part ∷ [])
push_components name (cur_dir ∷ cs) relative = push_components name cs relative
push_components name (parent_dir ∷ cs) relative = err (unsafe_name name)
push_components name (root_dir ∷ cs) relative = err (unsafe_name name)
push_components name (prefix _ ∷ cs) relative = err (unsafe_name name)

abbrev pub has_bad_byte : Text → Bool
has_bad_byte name = contains name 0 || contains name b'\\' || contains name b':'

pub join_relative : List Text → Text → List Text → Result (List Text)
join_relative base name [] = err (invalid_file (bytes "Unsafe empty remote file name: " ++ name))
join_relative base name (r ∷ rs) = ok (base ++ r ∷ rs)

unfoldable pub safe_join : List Text → Text → Result (List Text)
unfolding unsafe_name push_components components join_relative
safe_join base name =
    if is_empty name || has_bad_byte name
    then err (unsafe_name name)
    else if has_root name
    then err (invalid_file (bytes "Unsafe absolute remote file name: " ++ name))
    else elim (push_components name (components name) []) [
      | err e ↦ err e
      | ok relative ↦ join_relative base name relative
    ]
