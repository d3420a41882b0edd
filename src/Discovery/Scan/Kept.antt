-- ===== src/Discovery/Scan/Kept.antt =====
-- discovery/http.rs: which of the discovered devices a scan keeps.
use localsend_rs.Base.{
  ◌≡◌, ◌≢◌, ◌⊎◌, ◌↔◌, inl, inr, refl, ap, Bool, true, ◌||◌, Option, none, some, List, [], ◌∷◌,
  arith, subst, Bool-cases, if◌then◌else◌,
}
use localsend_rs.Protocol.{Text, DeviceInfo, text_eq, text_eq_iff, is_empty}
use localsend_rs.Discovery.Scan.{contains_text, deduplicate}

-- The first device with a fingerprint.
unfoldable pub first_with : Text → List DeviceInfo → Option DeviceInfo
first_with t [] = none
first_with t (d ∷ ds) = if text_eq d.fingerprint t then some d else first_with t ds

abbrev pub Occurs : Text → List DeviceInfo → Type 0
Occurs t [] = ⊥
Occurs t (d ∷ ds) = (d.fingerprint ≡ t) ⊎ Occurs t ds

-- No two devices have the same fingerprint.
abbrev pub AreDistinct : List DeviceInfo → Type 0
AreDistinct [] = Unit
AreDistinct (d ∷ ds) = (¬ Occurs d.fingerprint ds) × AreDistinct ds

-- Whether a fingerprint is one that a scan leaves out.
abbrev pub is_left_out : Text → Text → Bool
is_left_out own t = is_empty t || text_eq t own

deduplicate-first_with :
    (own t : Text) (seen : List Text) (ds : List DeviceInfo)
    → first_with t (deduplicate own seen ds)
      ≡ (if is_left_out own t || contains_text seen t then none else first_with t ds)
unfolding first_with deduplicate contains_text
deduplicate-first_with own t seen [] = ground arith
deduplicate-first_with own t seen (d ∷ ds) = elim (Bool-cases (text_eq d.fingerprint t)) [
  | inl same ↦
      let eq : d.fingerprint ≡ t = ground (arith, text_eq_iff d.fingerprint t) in
      let unnamed = ap (λ u. is_empty u) eq in
      let mine = ap (λ u. text_eq u own) eq in
      let known = ap (λ u. contains_text seen u) eq in
      ground (arith, deduplicate-first_with own t seen ds, unnamed, mine, known, same)
  | inr other ↦ ground (
    arith,
    deduplicate-first_with own t seen ds,
    deduplicate-first_with own t (d.fingerprint ∷ seen) ds,
  )
]

absent-first_with : (t : Text) (ds : List DeviceInfo) → first_with t ds ≡ none → ¬ Occurs t ds
unfolding first_with
absent-first_with t [] e never = never
absent-first_with t (d ∷ ds) e (inl same) = ground (arith, e, (text_eq_iff d.fingerprint t).1 same)
absent-first_with t (d ∷ ds) e (inr later) = absent-first_with t ds (ground (arith, e)) later

pub deduplicate-AreDistinct :
    (own : Text) (seen : List Text) (ds : List DeviceInfo) → AreDistinct (deduplicate own seen ds)
unfolding deduplicate
deduplicate-AreDistinct own seen [] = tt
deduplicate-AreDistinct own seen (d ∷ ds) = elim (Bool-cases (is_left_out own d.fingerprint)) [
  | inl out ↦
      let same : deduplicate own seen ds ≡ deduplicate own seen (d ∷ ds) = ground arith in
      subst AreDistinct same (deduplicate-AreDistinct own seen ds)
  | inr named ↦ elim (Bool-cases (contains_text seen d.fingerprint)) [
    | inl old ↦
        let same : deduplicate own seen ds ≡ deduplicate own seen (d ∷ ds) = ground arith in
        subst AreDistinct same (deduplicate-AreDistinct own seen ds)
    | inr new ↦
        let seen' = d.fingerprint ∷ seen in
        let rest = deduplicate own seen' ds in
        let same : d ∷ rest ≡ deduplicate own seen (d ∷ ds) = ground arith in
        let gone : first_with d.fingerprint rest ≡ none = ground (
          arith,
          deduplicate-first_with own d.fingerprint seen' ds,
          (text_eq_iff d.fingerprint d.fingerprint).1 refl,
        ) in
        subst AreDistinct same
          (absent-first_with d.fingerprint rest gone, deduplicate-AreDistinct own seen' ds)
  ]
]

is_empty-nil : (t : Text) → is_empty t ≡ true → t ≡ []
is_empty-nil [] e = refl
is_empty-nil (b ∷ t) e = ground (arith, e)

pub kept_iff :
    (own t : Text) (ds : List DeviceInfo) (d : DeviceInfo) (First : Type 0)
    → (first_with t ds ≡ some d) ↔ First
    → (first_with t (deduplicate own [] ds) ≡ some d) ↔ ((t ≢ []) × ((t ≢ own) × First))
unfolding contains_text
kept_iff own t ds d First first = (there, back)
  where
    kept :
        first_with t (deduplicate own [] ds)
        ≡ (if is_left_out own t || contains_text [] t then none else first_with t ds)
    kept = deduplicate-first_with own t [] ds

    there : first_with t (deduplicate own [] ds) ≡ some d → (t ≢ []) × ((t ≢ own) × First)
    there h =
        let named : t ≢ [] = λ e. ground (arith, h, kept, ap (λ u. is_empty u) e) in
        let foreign : t ≢ own = λ e. ground (arith, h, kept, (text_eq_iff t own).1 e) in
        (named, (foreign, first.0 (ground (arith, h, kept))))

    back : (t ≢ []) × ((t ≢ own) × First) → first_with t (deduplicate own [] ds) ≡ some d
    back (named, (foreign, it)) = elim (Bool-cases (is_empty t)) [
      | inl blank ↦ absurd (named (is_empty-nil t blank))
      | inr written ↦ elim (Bool-cases (text_eq t own)) [
        | inl mine ↦ absurd (foreign ((text_eq_iff t own).0 mine))
        | inr other ↦ ground (arith, kept, written, other, first.1 it)
      ]
    ]
