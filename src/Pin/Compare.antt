-- ===== src/Pin/Compare.antt =====
-- server/pin.rs: the comparison of a presented PIN with the configured one decides equality.
use Prim.Native.Nat.{bit_or, bit_xor}
use localsend_rs.Base.{
  ℕ, zero, suc, ◌<◌, ◌≡◌, refl, ◌↔◌, Bool, true, false, ◌&&◌, [], ◌∷◌, ◌==◌, ltb, if◌then◌else◌,
  length, All, arith, inl, inr, Bool-cases, ap,
}
use localsend_rs.Protocol.{Text}
use localsend_rs.Pin.{fold_diff, constant_time_eq}

abbrev pub IsBytes : Text → Type 0
IsBytes = All (λ b. b < 256)

-- A test on every number under a bound, by evaluation.
covers : (ℕ → Bool) → ℕ → Bool
covers test zero = true
covers test (suc k) = let below = covers test k in if test k then below else false

test-covers : (test : ℕ → Bool) (k b : ℕ) → b < k → covers test k ≡ true → test b ≡ true
unfolding covers
test-covers test zero b under passed = absurd (omega arith)
test-covers test (suc k) b under passed = ground (arith, test-covers test k b)

-- What the loop uses of `^` and `|` on bytes.
byte_facts : ℕ → ℕ → Bool
byte_facts x y =
    ltb (bit_xor x y) 256
    && ltb (bit_or x y) 256
    && (if x == y then bit_xor x y == 0 else ltb 0 (bit_xor x y))
    && (if x == 0 then bit_or x y == y else ltb 0 (bit_or x y))

byte_table : covers (λ x. covers (byte_facts x) 256) 256 ≡ true
unfolding covers byte_facts
byte_table = refl

byte_facts_lem : (x y : ℕ) → x < 256 → y < 256 → byte_facts x y ≡ true
byte_facts_lem x y small_x small_y =
    test-covers (byte_facts x) 256 y small_y
      (test-covers (λ x'. covers (byte_facts x') 256) 256 x small_x byte_table)

bit_xor-zero_iff :
    (x y : ℕ) → x < 256 → y < 256 → (bit_xor x y < 256) × ((bit_xor x y ≡ 0) ↔ (x ≡ y))
bit_xor-zero_iff x y hx hy = unfold byte_facts in ground (arith, byte_facts_lem x y hx hy)

bit_or-zero_iff :
    (x y : ℕ) → x < 256 → y < 256 → (bit_or x y < 256) × ((bit_or x y ≡ 0) ↔ ((x ≡ 0) × (y ≡ 0)))
bit_or-zero_iff x y hx hy = unfold byte_facts in ground (arith, byte_facts_lem x y hx hy)

fold_diff-zero_iff :
    (acc : ℕ) (a b : Text)
    → acc < 256
    → IsBytes a
    → IsBytes b
    → length a ≡ length b
    → (fold_diff acc a b ≡ 0) ↔ ((acc ≡ 0) × (a ≡ b))
unfolding fold_diff
fold_diff-zero_iff acc [] [] h ha hb e = ground arith
fold_diff-zero_iff acc [] (y ∷ b) h ha hb e = absurd (omega arith)
fold_diff-zero_iff acc (x ∷ a) [] h ha hb e = absurd (omega arith)
fold_diff-zero_iff acc (x ∷ a) (y ∷ b) h ha hb e = ground (
  arith,
  bit_xor-zero_iff x y ha.0 hb.0,
  bit_or-zero_iff acc (bit_xor x y) h,
  fold_diff-zero_iff (bit_or acc (bit_xor x y)) a b,
)

-- On byte strings the constant-time comparison answers yes exactly for equal strings.
pub constant_time_eq_iff :
    (a b : Text) → IsBytes a → IsBytes b → (constant_time_eq a b ≡ true) ↔ (a ≡ b)
unfolding constant_time_eq
constant_time_eq_iff a b ha hb = elim (Bool-cases (length a == length b)) [
  | inl e ↦ ground (arith, fold_diff-zero_iff 0 a b)
  | inr e ↦ ground (arith, λ (q : a ≡ b). ap {A = Text} length q)
]
