-- ===== src/Prelude/Tests.antt =====
-- Boolean tests on the native numbers, the conditional, and decisions on texts.
use Prim.Native.Nat.{ℕ, compare, Ordering}
use Prim.Native.String.{String}
use mathlib.Core.Path.{◌≡◌, refl}
use mathlib.Core.Logic.{◌↔◌, ◌⊎◌, inl, inr}
use mathlib.Core.Bool.{Bool, true, false}
use mathlib.Core.Option.{Option, none, some}
use text.Mathlib.Text.{◌==◌ as str_eq}
use text.Mathlib.TextEquality.{eq_iff}

abbrev pub ltb : ℕ → ℕ → Bool
ltb a b = elim (compare a b) [ Ordering.lt ↦ true | _ ↦ false ]

abbrev pub leb : ℕ → ℕ → Bool
leb a b = elim (compare a b) [ Ordering.gt ↦ false | _ ↦ true ]

infix 50 ◌==◌
abbrev pub ◌==◌ : ℕ → ℕ → Bool
a == b = elim (compare a b) [ Ordering.eq ↦ true | _ ↦ false ]

infix 1 if◌then◌else◌
abbrev pub if◌then◌else◌ {ℓ} : {A : Type ℓ} → Bool → A → A → A
if true then x else y = x
if false then x else y = y

-- To split on a computed value and keep the equation.
pub Bool-cases : (b : Bool) → (b ≡ true) ⊎ (b ≡ false)
Bool-cases true = inl refl
Bool-cases false = inr refl

pub Option-cases {ℓ} : {A : Type ℓ} (o : Option A) → (o ≡ none) ⊎ ((a : A) × (o ≡ some a))
Option-cases none = inl refl
Option-cases (some a) = inr (a, refl)

dec_of_test {ℓ} : {P : Type ℓ} (b : Bool) → (b ≡ true) ↔ P → Dec P
dec_of_test true e = yes (e.0 refl)
dec_of_test false e = no (λ p. cc (e.1 p))

-- Equality of texts is decided by the comparison of the native texts.
unfoldable pub text_dec : Discrete String
unfolding dec_of_test
text_dec s t = dec_of_test (str_eq s t) (eq_iff s t)

pub text_ne : (s t : String) → str_eq s t ≡ false → ¬ (s ≡ t)
text_ne s t h = λ p. cc ((eq_iff s t).1 p, h)
