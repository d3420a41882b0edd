-- ===== src/Base/Reflection.antt =====
-- Boolean tests and the propositions that they decide.
use mathlib.Core.Path.{◌≡◌, refl}
use mathlib.Core.Logic.{◌↔◌, ◌⊎◌, inl, inr}
use mathlib.Core.Bool.{Bool, true, false, ◌&&◌, ◌||◌, not}
use mathlib.Core.List.{List, [], ◌∷◌}
use native.Mathlib.Omega.{arith}
use localsend_rs.Base.Lists.{any}

-- Some entry of a list has the property.
abbrev pub AnyOf {ℓ} : {A : Type ℓ} → (A → Type 0) → List A → Type 0
AnyOf P [] = ⊥
AnyOf P (a ∷ xs) = P a ⊎ AnyOf P xs

pub or_iff :
    (b c : Bool) (P Q : Type 0) → (b ≡ true) ↔ P → (c ≡ true) ↔ Q → ((b || c) ≡ true) ↔ (P ⊎ Q)
or_iff true c P Q p q = (λ _. inl (p.0 refl), λ _. refl)
or_iff false c P Q p q = (λ e. inr (q.0 e), back)
  where
    back : P ⊎ Q → c ≡ true
    back (inl it) = absurd (ground (arith, p.1 it))
    back (inr it) = q.1 it

pub and_iff :
    (b c : Bool) (P Q : Type 0) → (b ≡ true) ↔ P → (c ≡ true) ↔ Q → ((b && c) ≡ true) ↔ (P × Q)
and_iff true c P Q p q = (λ e. (p.0 refl, q.0 e), λ (_, it). q.1 it)
and_iff false c P Q p q = (λ e. ground (arith, e), λ (it, _). p.1 it)

pub iff_trans : (P Q R : Type 0) → P ↔ Q → Q ↔ R → P ↔ R
iff_trans P Q R f g = (λ x. g.0 (f.0 x), λ x. f.1 (g.1 x))

pub not_iff : (b : Bool) (P : Type 0) → (b ≡ true) ↔ P → (not b ≡ true) ↔ (¬ P)
not_iff true P p = (λ e. ground (arith, e), λ no'. absurd (no' (p.0 refl)))
not_iff false P p = (λ _ it. ground (arith, p.1 it), λ _. refl)

pub any_iff :
    {A : Type 0} (p : A → Bool) (P : A → Type 0) (xs : List A)
    → ((a : A) → (p a ≡ true) ↔ P a)
    → (any p xs ≡ true) ↔ AnyOf P xs
any_iff p P [] h = (λ e. ground (arith, e), λ never. absurd never)
any_iff p P (a ∷ xs) h = or_iff (p a) (any p xs) (P a) (AnyOf P xs) (h a) (any_iff p P xs h)
