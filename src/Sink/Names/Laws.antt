-- ===== src/Sink/Names/Laws.antt =====
-- core/sink.rs: the names that the collision series offers fit a path component.
use native.Mathlib.Nat.{pow-suc}
use localsend_rs.Base.{
  ℕ, zero, suc, ◌+◌, ◌-◌, ◌*◌, ◌/◌, ◌%◌, ◌^◌, ◌<◌, ◌≤◌, ◌≡◌, refl, ◌∙◌, inl, inr, true, false, [],
  ◌∷◌, ◌++◌, ◌==◌, ltb, leb, length, take, length-append, length-take-le, arith, Bool-cases, ap,
  ==_iff,
}
use localsend_rs.Protocol.{Text}
use localsend_rs.Error.{bytes}
use localsend_rs.Sink.Names.{
  max_component_bytes, max_collision_attempts, decimal_digits, decimal, is_char_boundary, back_up,
  truncate_utf8, split_extension, suffix_of, assemble, collision_leaf, place,
}

-- The number that a row of digits stands for, after those that stand for `n`.
pub value : ℕ → Text → ℕ
value n [] = n
value n (d ∷ ds) = value (n * 10 + (d - b'0')) ds

decimal_digits-value :
    (fuel n : ℕ) (acc : Text) → n < fuel → value 0 (decimal_digits fuel n acc) ≡ value n acc
unfolding decimal_digits value
decimal_digits-value zero n acc h = absurd (omega arith)
decimal_digits-value (suc fuel) n acc h = elim (Bool-cases (ltb n 10)) [
  | inl small ↦ rw small (ap (λ k. value k acc) (omega arith))
  | inr large ↦ rw large (
      decimal_digits-value fuel (n / 10) ((b'0' + n % 10) ∷ acc) (ground arith)
      ∙ ap (λ k. value k acc) (omega arith))
]

-- The fuel is enough: the digits stand for the number.
pub value-decimal : (n : ℕ) → value 0 (decimal n) ≡ n
unfolding decimal value
value-decimal n = decimal_digits-value (suc n) n [] (omega arith)

length-decimal_digits :
    (k fuel n : ℕ) (acc : Text)
    → n < fuel
    → n < 10 ^ suc k
    → length (decimal_digits fuel n acc) ≤ suc k + length acc
unfolding decimal_digits
length-decimal_digits k zero n acc h b = absurd (omega arith)
length-decimal_digits zero (suc fuel) n acc h b = ground (arith, pow-suc 10 0)
length-decimal_digits (suc k) (suc fuel) n acc h b = elim (Bool-cases (ltb n 10)) [
  | inl small ↦ rw small (omega arith)
  | inr large ↦ rw large (
      omega (
        arith,
        length-decimal_digits k fuel (n / 10) ((b'0' + n % 10) ∷ acc) (ground arith)
            (omega (arith, pow-suc 10 (suc k))),
      ))
]

length-suffix_of : (attempt : ℕ) → attempt ≤ max_collision_attempts → length (suffix_of attempt) ≤ 7
unfolding suffix_of decimal
length-suffix_of attempt h = omega (
  arith,
  length-append (decimal attempt) (bytes ")"),
  length-decimal_digits 3 (suc attempt) attempt [] (omega arith) (omega arith),
)

back_up-le : (v : Text) (n : ℕ) → back_up v n ≤ n
unfolding back_up
back_up-le v zero = omega arith
back_up-le v (suc n) = ground (arith, back_up-le v n)

length-truncate_utf8 : (v : Text) (n : ℕ) → length (truncate_utf8 v n) ≤ n
unfolding truncate_utf8
length-truncate_utf8 v n = ground (arith, length-take-le (back_up v n) v, back_up-le v n)

length-assemble :
    (stem suffix extension : Text)
    → length extension + length suffix ≤ max_component_bytes
    → length (assemble stem suffix extension) ≤ max_component_bytes
unfolding assemble
length-assemble stem suffix extension h =
    let budget : ℕ = max_component_bytes - length suffix - length extension in
    omega (
      arith,
      length-append (truncate_utf8 stem budget) (suffix ++ extension),
      length-append suffix extension,
      length-truncate_utf8 stem budget,
    )

length-place :
    (original suffix : Text) (parts : Text × Text)
    → length suffix ≤ 7
    → length (place original suffix parts) ≤ max_component_bytes
unfolding place
length-place original suffix (stem, extension) h =
    elim (Bool-cases (leb max_component_bytes (length extension + length suffix))) [
      | inl crowded ↦ rw (crowded, place) (length-assemble original suffix [] (omega arith))
      | inr roomy ↦ rw (roomy, place) (length-assemble stem suffix extension (ground arith))
    ]

-- Every name of the collision series fits a path component, whatever name was offered.
pub length-collision_leaf :
    (original : Text) (attempt : ℕ)
    → attempt ≤ max_collision_attempts
    → length (collision_leaf original attempt) ≤ max_component_bytes
unfolding collision_leaf
length-collision_leaf original attempt h =
    length-place original (suffix_of attempt) (split_extension original)
      (length-suffix_of attempt h)

back_up_lem :
    (v : Text) (n : ℕ)
    → (is_char_boundary v (back_up v n) ≡ true)
      × ((k : ℕ) → back_up v n < k → k ≤ n → is_char_boundary v k ≡ false)
unfolding back_up
back_up_lem v zero = (refl, λ k h h'. absurd (omega arith))
back_up_lem v (suc n) = elim (Bool-cases (is_char_boundary v (suc n))) [
  | inl at ↦ rw (at, back_up) (at, λ k h h'. absurd (omega arith))
  | inr between ↦
      rw (between, back_up)
        (
          (back_up_lem v n).0,
          λ k h h'. elim (Bool-cases (k == suc n)) [
            | inl e ↦ rw ((==_iff k (suc n)).0 e) between
            | inr ne ↦ (back_up_lem v n).1 k h (ground arith)
          ],
        )
]

-- Truncation keeps a name that fits. It cuts any other at the last character boundary that fits, so
-- never inside a character, and drops no more than it has to.
pub truncate_utf8_lem :
    (v : Text) (n : ℕ)
    → (length v ≤ n → truncate_utf8 v n ≡ v)
      × (n < length v
          → (k : ℕ) × (truncate_utf8 v n ≡ take k v)
            × (k ≤ n)
            × (is_char_boundary v k ≡ true)
            × ((j : ℕ) → k < j → j ≤ n → is_char_boundary v j ≡ false))
unfolding truncate_utf8
truncate_utf8_lem v n = (
  λ fits. ground arith,
  λ long. (back_up v n, ground arith, back_up-le v n, (back_up_lem v n).0, (back_up_lem v n).1),
)
