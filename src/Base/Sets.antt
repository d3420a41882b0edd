-- ===== src/Base/Sets.antt =====
-- Lists of identifiers as sets: distinct entries, inclusion, and how many there are.
use Prim.Native.Nat.{ℕ, suc, ◌≤◌}
use mathlib.Core.Path.{◌≡◌, refl, ap}
use mathlib.Core.Bool.{true, false}
use mathlib.Core.Logic.{◌↔◌, inl, inr}
use mathlib.Core.List.{List, [], ◌∷◌}
use native.Mathlib.Omega.{arith}
use localsend_rs.Base.Tests.{◌==◌, Bool-cases}
use localsend_rs.Base.Lists.{length, contains, erase, set_insert, contains-set_insert}
use localsend_rs.Base.Maps.{Map, keys, lookup, contains_key}

abbrev pub Distinct : List ℕ → Type 0
Distinct [] = Unit
Distinct (x ∷ xs) = (contains xs x ≡ false) × Distinct xs

abbrev pub Subset : List ℕ → List ℕ → Type 0
Subset xs ys = (a : ℕ) → contains xs a ≡ true → contains ys a ≡ true

length-erase : (a : ℕ) (xs : List ℕ) → contains xs a ≡ true → length xs ≡ suc (length (erase a xs))
unfolding erase
length-erase a [] h = cc
length-erase a (x ∷ xs) h = ground (arith, length-erase a xs)

contains-erase_ne :
    (a b : ℕ) (xs : List ℕ) → (a == b) ≡ false → contains (erase a xs) b ≡ contains xs b
unfolding erase
contains-erase_ne a b [] h = refl
contains-erase_ne a b (x ∷ xs) h = ground (arith, contains-erase_ne a b xs h)

pub length-le_of_Subset : (xs ys : List ℕ) → Distinct xs → Subset xs ys → length xs ≤ length ys
length-le_of_Subset [] ys d h = omega arith
length-le_of_Subset (x ∷ xs) ys d h =
    let inner =
      length-le_of_Subset xs (erase x ys) d.1
        (λ a m. ground (arith, h a, d.0, contains-erase_ne x a ys)) in
    omega (arith, inner, length-erase x ys (h x (ground arith)))

-- A set inside another is all of it exactly when the two have as many entries.
pub Subset_full :
    (xs ys : List ℕ)
    → Distinct xs
    → Distinct ys
    → Subset xs ys
    → ((length xs == length ys) ≡ true) ↔ Subset ys xs
Subset_full xs ys dx dy h = (full, λ back. same (length-le_of_Subset ys xs dy back))
  where
    same : length ys ≤ length xs → (length xs == length ys) ≡ true
    same le = ground (arith, length-le_of_Subset xs ys dx h)

    more : (a : ℕ) → contains ys a ≡ true → contains xs a ≡ false → Subset (a ∷ xs) ys
    more a ha out b hb = ground (arith, h b)

    full : (length xs == length ys) ≡ true → Subset ys xs
    full e a ha = elim (Bool-cases (contains xs a)) [
      | inl m ↦ m
      | inr out ↦ absurd (ground (arith, length-le_of_Subset (a ∷ xs) ys (out, dx) (more a ha out)))
    ]

pub Distinct-set_insert : (a : ℕ) (xs : List ℕ) → Distinct xs → Distinct (set_insert a xs)
unfolding set_insert
Distinct-set_insert a xs d = ground arith

pub Subset-set_insert :
    (a : ℕ) (xs ys : List ℕ) → contains ys a ≡ true → Subset xs ys → Subset (set_insert a xs) ys
Subset-set_insert a xs ys ha h b hb = ground (arith, contains-set_insert a b xs, h b)

pub contains-keys {ℓ} : {V : Type ℓ} (k : ℕ) (m : Map V) → contains (keys m) k ≡ contains_key k m
unfolding lookup
contains-keys k [] = refl
contains-keys k ((j, v) ∷ m) = ground (arith, contains-keys k m)

pub length-keys {ℓ} : {V : Type ℓ} (m : Map V) → length (keys m) ≡ length m
length-keys [] = refl
length-keys ((j, v) ∷ m) = ap suc (length-keys m)
