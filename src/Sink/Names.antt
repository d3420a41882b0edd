-- ===== src/Sink/Names.antt =====
-- core/sink.rs: `collision_leaf` and `truncate_utf8`, over the bytes of a name.
pub mod Laws
pub mod Numbered
use localsend_rs.Base.{
  ℕ, zero, suc, ◌+◌, ◌-◌, ◌/◌, ◌%◌, Bool, false, ◌||◌, not, Option, none, some, [], ◌∷◌, ◌++◌, ◌==◌,
  ltb, leb, if◌then◌else◌, length, get_elem?, take, drop,
}
use localsend_rs.Protocol.{Text}
use localsend_rs.Error.{bytes}

abbrev pub max_component_bytes : ℕ
max_component_bytes = 255

abbrev pub max_collision_attempts : ℕ
max_collision_attempts = 1024

-- `{attempt}` in a format string. The fuel is one more than the number.
unfoldable pub decimal_digits : ℕ → ℕ → Text → Text
decimal_digits zero n acc = acc
decimal_digits (suc fuel) n acc =
    let rest = decimal_digits fuel (n / 10) ((b'0' + n % 10) ∷ acc) in
    if ltb n 10 then (b'0' + n) ∷ acc else rest

unfoldable pub decimal : ℕ → Text
unfolding decimal_digits
decimal n = decimal_digits (suc n) n []

-- `str::is_char_boundary`.
abbrev pub is_char_boundary : Text → ℕ → Bool
is_char_boundary value i =
    i == 0
    || i == length value
    || (elim (get_elem? value i) [ none ↦ false | some b ↦ ltb b 128 || leb 192 b ])

-- `while end > 0 && !value.is_char_boundary(end) { end -= 1; }`.
pub back_up : Text → ℕ → ℕ
back_up value zero = zero
back_up value (suc n) =
    let rest = back_up value n in if not (is_char_boundary value (suc n)) then rest else suc n

pub truncate_utf8 : Text → ℕ → Text
unfolding back_up
truncate_utf8 value max_bytes =
    if leb (length value) max_bytes then value else take (back_up value max_bytes) value

-- `rfind('.')`: the last place of a dot.
pub rfind_dot : Text → Option ℕ
rfind_dot [] = none
rfind_dot (c ∷ s) = elim (rfind_dot s) [
  | some i ↦ some (suc i)
  | none ↦ if c == b'.' then some 0 else none
]

-- `split_at(index)`, at a dot that is not the first byte, or the whole name and no extension.
unfoldable pub split_extension : Text → Text × Text
unfolding rfind_dot
split_extension original = elim (rfind_dot original) [
  | none ↦ (original, [])
  | some i ↦ if ltb 0 i then (take i original, drop i original) else (original, [])
]

-- `format!(" ({attempt})")`.
unfoldable pub suffix_of : ℕ → Text
unfolding decimal
suffix_of attempt = bytes " (" ++ (decimal attempt ++ bytes ")")

pub assemble : Text → Text → Text → Text
unfolding truncate_utf8
assemble stem suffix extension =
    truncate_utf8 stem (max_component_bytes - length suffix - length extension)
    ++ (suffix ++ extension)

-- An extension that leaves no room counts as part of the stem.
unfoldable pub place : Text → Text → Text × Text → Text
unfolding assemble
place original suffix (stem, extension) =
    if leb max_component_bytes (length extension + length suffix)
    then assemble original suffix []
    else assemble stem suffix extension

unfoldable pub collision_leaf : Text → ℕ → Text
collision_leaf original attempt = place original (suffix_of attempt) (split_extension original)
