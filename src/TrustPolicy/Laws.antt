-- ===== src/TrustPolicy/Laws.antt =====
-- client/trust_policy.rs: a policy trusts one fingerprint, or none.
use localsend_rs.Base.{
  ℕ, ◌+◌, ◌-◌, ◌≡◌, ◌≢◌, ◌↔◌, ◌⊎◌, ◌∙◌, sym, ap, refl, true, false, ◌&&◌, Option, none, ◌++◌, leb,
  ltb, All, if◌then◌else◌, inl, inr, some, List, [], ◌∷◌, ◌==◌, retain, map, length, arith,
  Bool-cases, Option-cases, subst,
}
use localsend_rs.Protocol.{Text, ascii_lower, text_eq_iff}
use localsend_rs.TrustPolicy.{
  is_ascii_hexdigit, normalize_fingerprint, first_normalized, new, allows,
}

digits : Text → Text
digits t = map ascii_lower (retain is_ascii_hexdigit t)

lower_digit :
    (b : ℕ)
    → is_ascii_hexdigit b ≡ true
    → (is_ascii_hexdigit (ascii_lower b) ≡ true) × (ascii_lower (ascii_lower b) ≡ ascii_lower b)
lower_digit b h = (ground arith, ground arith)

digits-digits : (t : Text) → digits (digits t) ≡ digits t
unfolding digits
digits-digits [] = refl
digits-digits (b ∷ t) = elim (Bool-cases (is_ascii_hexdigit b)) [
  | inl e ↦ ground (arith, lower_digit b e, digits-digits t)
  | inr e ↦ ground (arith, digits-digits t)
]

normalize_digits :
    (t n : Text) → normalize_fingerprint t ≡ some n → (digits t ≡ n) × (length n ≡ 64)
unfolding normalize_fingerprint digits
normalize_digits t n e = elim (Bool-cases (length (digits t) == 64)) [
  | inl full ↦ (ground arith, ground arith)
  | inr short ↦ absurd (ground arith)
]

normalize_full : (n : Text) → digits n ≡ n → length n ≡ 64 → normalize_fingerprint n ≡ some n
unfolding normalize_fingerprint digits
normalize_full n e full = ground arith

-- A normalized fingerprint has 64 digits, and normalizing it again changes nothing.
pub normalize_fingerprint_twice :
    (t n : Text)
    → normalize_fingerprint t ≡ some n
    → (normalize_fingerprint n ≡ some n) × (length n ≡ 64)
normalize_fingerprint_twice t n e =
    let (same, full) = normalize_digits t n e in
    let still : digits n ≡ n = subst (λ m. digits m ≡ m) same (digits-digits t) in
    (normalize_full n still full, full)

-- The value of a hexadecimal digit, in either case.
abbrev pub hex_value : ℕ → Option ℕ
hex_value b =
    if leb 48 b && leb b 57
    then some (b - 48)
    else if leb 97 b && leb b 102
    then some (b - 87)
    else if leb 65 b && leb b 70
    then some (b - 55)
    else none

abbrev pub push_value : Option ℕ → List ℕ → List ℕ
push_value none vs = vs
push_value (some v) vs = v ∷ vs

-- The values of the hexadecimal digits in a text, whatever stands between them.
unfoldable pub hex_values : Text → List ℕ
hex_values [] = []
hex_values (b ∷ t) = push_value (hex_value b) (hex_values t)

abbrev lower_of : ℕ → ℕ
lower_of v = if ltb v 10 then v + 48 else v + 87

hex_digit :
    (b : ℕ)
    → ((is_ascii_hexdigit b ≡ false) × (hex_value b ≡ none))
      ⊎ ((is_ascii_hexdigit b ≡ true)
          × ((v : ℕ) × ((hex_value b ≡ some v)
                × ((ascii_lower b ≡ lower_of v) × (hex_value (ascii_lower b) ≡ some v)))))
hex_digit b = elim (Bool-cases (is_ascii_hexdigit b)) [
  | inr other ↦ inl (other, ground (arith, other))
  | inl digit ↦ inr (
    digit,
    elim (Option-cases (hex_value b)) [
      | inl missing ↦ absurd (ground (arith, digit, missing))
      | inr (v, e) ↦ (v, (e, (ground (arith, digit, e), ground (arith, digit, e))))
    ],
  )
]

digits-values : (t : Text) → digits t ≡ map lower_of (hex_values t)
unfolding digits hex_values
digits-values [] = refl
digits-values (b ∷ t) = elim (hex_digit b) [
  | inl (other, e) ↦ ground (arith, other, e, digits-values t)
  | inr (digit, (v, (e, (lower, same)))) ↦ ground (arith, digit, e, lower, digits-values t)
]

hex_values-digits : (t : Text) → hex_values (digits t) ≡ hex_values t
unfolding digits hex_values
hex_values-digits [] = refl
hex_values-digits (b ∷ t) = elim (hex_digit b) [
  | inl (other, e) ↦ ground (arith, other, e, hex_values-digits t)
  | inr (digit, (v, (e, (lower, same)))) ↦ ground (arith, digit, e, same, hex_values-digits t)
]

digits_iff : (t u : Text) → (digits t ≡ digits u) ↔ (hex_values t ≡ hex_values u)
digits_iff t u = (
  λ e. sym (hex_values-digits t) ∙ (ap hex_values e ∙ hex_values-digits u),
  λ e. digits-values t ∙ (ap (λ vs. map lower_of vs) e ∙ sym (digits-values u)),
)

length-values : (t : Text) → length (digits t) ≡ length (hex_values t)
length-values t = ap (λ s. length s) (digits-values t) ∙ go (hex_values t)
  where
    go : (vs : List ℕ) → length (map lower_of vs) ≡ length vs
    go [] = refl
    go (v ∷ vs) = omega (arith, go vs)

abbrev pub IsFull : Text → Type 0
IsFull t = length (hex_values t) ≡ 64

normalize_cases :
    (t : Text)
    → (IsFull t × (normalize_fingerprint t ≡ some (digits t)))
      ⊎ ((length (hex_values t) ≢ 64) × (normalize_fingerprint t ≡ none))
unfolding normalize_fingerprint digits
normalize_cases t = elim (Bool-cases (length (digits t) == 64)) [
  | inl full ↦ inl (ground (arith, length-values t, full), ground (arith, full))
  | inr short ↦ inr (λ e. ground (arith, length-values t, short, e), ground (arith, short))
]

-- The first fingerprint of 64 digits.
abbrev pub IsFirstFull : List Text → Text → Type 0
IsFirstFull trusted pick =
    (before : List Text) × ((after : List Text) × ((trusted ≡ before ++ pick ∷ after)
        × (All (λ t. length (hex_values t) ≢ 64) before × IsFull pick)))

first_normalized-before :
    (before : List Text) (pick : Text) (after : List Text)
    → All (λ t. length (hex_values t) ≢ 64) before
    → IsFull pick
    → first_normalized (before ++ pick ∷ after) ≡ some (digits pick)
unfolding first_normalized
first_normalized-before [] pick after short full = elim (normalize_cases pick) [
  | inl (_, e) ↦ ground (arith, e)
  | inr (other, e) ↦ absurd (other full)
]
first_normalized-before (t ∷ before) pick after (other, short) full = elim (normalize_cases t) [
  | inl (it, e) ↦ absurd (other it)
  | inr (_, e) ↦ ground (arith, e, first_normalized-before before pick after short full)
]

first_normalized_cases :
    (trusted : List Text)
    → ((pick : Text) × IsFirstFull trusted pick) ⊎ (first_normalized trusted ≡ none)
unfolding first_normalized
first_normalized_cases [] = inr refl
first_normalized_cases (t ∷ rest) = elim (normalize_cases t) [
  | inl (full, e) ↦ inl (t, ([], (rest, (refl, (tt, full)))))
  | inr (other, e) ↦ elim (first_normalized_cases rest) [
    | inl (pick, (before, (after, (split, (short, full))))) ↦
        inl (pick, (t ∷ before, (after, (ap (λ ts. t ∷ ts) split, ((other, short), full)))))
    | inr nobody ↦ inr (ground (arith, e, nobody))
  ]
]

-- A policy made of offered fingerprints allows a peer exactly when, of the offered ones with 64
-- hexadecimal digits, the first has the digits of the peer's fingerprint, in the same order, in upper
-- or lower case, whatever other characters stand between them. Where none of those that are offered
-- has 64 digits, it allows no peer.
pub allows-new_iff :
    (trusted : List Text) (fingerprint : Text)
    → (allows fingerprint (new trusted) ≡ true)
      ↔ ((pick : Text) × (IsFirstFull trusted pick × (hex_values fingerprint ≡ hex_values pick)))
unfolding allows new
allows-new_iff trusted fingerprint = (there, back)
  where
    there :
        allows fingerprint (new trusted) ≡ true
        → (pick : Text) × (IsFirstFull trusted pick × (hex_values fingerprint ≡ hex_values pick))
    there h = elim (normalize_cases fingerprint) [
      | inr (_, e) ↦ absurd (ground (arith, h, e))
      | inl (full, e) ↦ elim (first_normalized_cases trusted) [
        | inr nobody ↦ absurd (
            ground (
              arith,
              h,
              e,
              nobody,
              text_eq_iff (digits fingerprint) [],
              length-values fingerprint,
              full,
            ))
        | inl (pick, first) ↦
            let (before, (after, (split, (short, it)))) = first in
            let chosen : first_normalized trusted ≡ some (digits pick) =
              ap first_normalized split ∙ first_normalized-before before pick after short it in
            let same : digits fingerprint ≡ digits pick =
              ground (arith, h, e, chosen, text_eq_iff (digits fingerprint) (digits pick)) in
            (pick, (first, (digits_iff fingerprint pick).0 same))
      ]
    ]

    back :
        (pick : Text) × (IsFirstFull trusted pick × (hex_values fingerprint ≡ hex_values pick))
        → allows fingerprint (new trusted) ≡ true
    back (pick, ((before, (after, (split, (short, it)))), values)) =
        let chosen : first_normalized trusted ≡ some (digits pick) =
          ap first_normalized split ∙ first_normalized-before before pick after short it in
        let same : digits fingerprint ≡ digits pick = (digits_iff fingerprint pick).1 values in
        elim (normalize_cases fingerprint) [
          | inl (_, e) ↦
              ground (arith, e, chosen, same, text_eq_iff (digits fingerprint) (digits pick))
          | inr (other, e) ↦ absurd (other (ap (λ vs. length vs) values ∙ it))
        ]
