-- ===== src/PathSafety/Stays.antt =====
-- path_safety.rs: an accepted name stays below the receiver's directory.
use localsend_rs.Base.{
  ℕ, ◌≡◌, ◌≢◌, refl, true, false, List, [], ◌∷◌, ◌++◌, ◌==◌, contains, retain, All, arith, inl, inr,
  Bool-cases, ◌∙◌,
}
use localsend_rs.Protocol.{Text, text_eq_iff}
use localsend_rs.Error.{ok}
use localsend_rs.PathSafety.{push_front, split, has_bad_byte, safe_join}
use localsend_rs.PathSafety.Laws.{is_ordinary, walk-eq-retain, safe_join_iff}

-- An entry name that cannot lead anywhere but to an entry of its directory.
abbrev pub IsPlainName : Text → Type 0
IsPlainName s =
    (s ≢ [])
    × (s ≢ b'.' ∷ [])
    × (s ≢ b'.' ∷ b'.' ∷ [])
    × (contains s b'/' ≡ false)
    × (has_bad_byte s ≡ false)

-- A text without two given bytes.
abbrev Lacks : ℕ → ℕ → Text → Type 0
Lacks sep bad s = (contains s sep ≡ false) × (contains s bad ≡ false)

push_front-Lacks :
    (sep bad c : ℕ) (ss : List Text)
    → (c == sep) ≡ false
    → (c == bad) ≡ false
    → All (Lacks sep bad) ss
    → All (Lacks sep bad) (push_front c ss)
unfolding push_front
push_front-Lacks sep bad c [] hs hb h = ground arith
push_front-Lacks sep bad c (s ∷ ss) hs hb h = ground arith

-- The pieces of a text hold no separator, and no byte that the text does not hold.
split-Lacks :
    (sep bad : ℕ) (name : Text) → contains name bad ≡ false → All (Lacks sep bad) (split sep name)
unfolding split
split-Lacks sep bad [] h = ground arith
split-Lacks sep bad (c ∷ s) h = elim (Bool-cases (c == sep)) [
  | inl e ↦ rw (e, split) ((refl, refl), split-Lacks sep bad s (ground arith))
  | inr e ↦
      rw (e, split)
        (push_front-Lacks sep bad c (split sep s) e (ground arith)
          (split-Lacks sep bad s (ground arith)))
]

plain :
    (s : Text)
    → Lacks b'/' 0 s
    → Lacks b'/' b'\\' s
    → Lacks b'/' b':' s
    → is_ordinary s ≡ true
    → IsPlainName s
plain s n b c o = ground (arith, text_eq_iff s (b'.' ∷ []), text_eq_iff s (b'.' ∷ b'.' ∷ []))

retain-plain :
    (ss : List Text)
    → All (Lacks b'/' 0) ss
    → All (Lacks b'/' b'\\') ss
    → All (Lacks b'/' b':') ss
    → All IsPlainName (retain is_ordinary ss)
retain-plain [] n b c = tt
retain-plain (s ∷ ss) n b c = elim (Bool-cases (is_ordinary s)) [
  | inl o ↦ rw o (plain s n.0 b.0 c.0 o, retain-plain ss n.1 b.1 c.1)
  | inr o ↦ rw o (retain-plain ss n.1 b.1 c.1)
]

-- The path of an accepted name is the receiver's directory followed by at least one name, and each
-- name that follows is an entry of its directory: not empty, not `.` or `..`, without a slash, a
-- backslash, a colon or a zero byte.
pub safe_join_stays :
    (base : List Text) (name : Text) (p : List Text)
    → safe_join base name ≡ ok p
    → (rel : List Text) × (p ≡ base ++ rel) × (rel ≢ []) × All IsPlainName rel
safe_join_stays base name p h =
    let (u, e) = (safe_join_iff base name p).0 h in
    (
      retain is_ordinary (split b'/' name),
      e ∙ walk-eq-retain base (split b'/' name) u.3,
      u.4,
      retain-plain (split b'/' name) (split-Lacks b'/' 0 name (ground arith))
          (split-Lacks b'/' b'\\' name (ground arith)) (split-Lacks b'/' b':' name (ground arith)),
    )
