-- ===== src/Prelude/Lists.antt =====
-- Lists measured by native numbers, and predicates on lists by recursion.
use Prim.Native.Nat.{ℕ, zero, suc, ◌+◌}
use mathlib.Core.Logic.{◌↔◌, inl, inr}
use mathlib.Core.Path.{◌≡◌, refl, refl}
use mathlib.Core.Bool.{Bool, true, false}
use mathlib.Core.Option.{Option, none, some}
use mathlib.Core.List.{List, [], ◌∷◌, ◌++◌, filter}
use native.Mathlib.Omega.{arith}
use tlo.Prelude.Tests.{if◌then◌else◌, Bool-cases}

module _ {ℓ} {A : Type ℓ} where
  abbrev pub length : List A → ℕ
  length [] = 0
  length (x ∷ xs) = suc (length xs)

  abbrev pub take : ℕ → List A → List A
  take zero xs = []
  take (suc n) [] = []
  take (suc n) (x ∷ xs) = x ∷ take n xs

  pub length-append : (xs ys : List A) → length (xs ++ ys) ≡ length xs + length ys
  length-append [] ys = omega arith
  length-append (x ∷ xs) ys = omega (arith, length-append xs ys)

  abbrev pub All {κ} : (A → Type κ) → List A → Type κ
  All P [] = Unit
  All P (x ∷ xs) = P x × All P xs

  pub All-append {κ} : (P : A → Type κ) (xs ys : List A) → All P xs → All P ys → All P (xs ++ ys)
  All-append P [] ys hx hy = hy
  All-append P (x ∷ xs) ys hx hy = (hx.0, All-append P xs ys hx.1 hy)

  pub All-split {κ} : (P : A → Type κ) (xs ys : List A) → All P (xs ++ ys) → All P xs × All P ys
  All-split P [] ys h = (tt, h)
  All-split P (x ∷ xs) ys h = let (a, b) = All-split P xs ys h.1 in ((h.0, a), b)

  -- An element between two lists.
  pub All-insert {κ} :
      (P : A → Type κ) (xs : List A) (x : A) (ys : List A)
      → All P (xs ++ x ∷ ys) ↔ (P x × All P (xs ++ ys))
  All-insert P xs x ys = (
    λ a. let (h, (p, k)) = All-split P xs (x ∷ ys) a in (p, All-append P xs ys h k),
    λ a. let (h, k) = All-split P xs ys a.1 in All-append P xs (x ∷ ys) h (a.0, k),
  )

  pub length-insert :
      (xs : List A) (x : A) (ys : List A) → length (xs ++ x ∷ ys) ≡ suc (length (xs ++ ys))
  length-insert xs x ys = omega (arith, length-append xs (x ∷ ys), length-append xs ys)

  pub All-filter {κ μ} :
      (P : A → Type κ) {Q : A → Type μ} (d : (a : A) → Dec (Q a)) (xs : List A)
      → All P xs
      → All P (filter d xs)
  All-filter P d [] h = tt
  All-filter P d (x ∷ xs) h = ground (arith, All-filter P d xs h.1)

  pub All-imp {κ μ} :
      (P : A → Type κ) (Q : A → Type μ)
      → ((a : A) → P a → Q a)
      → (xs : List A) → All P xs
      → All Q xs
  All-imp P Q f [] h = tt
  All-imp P Q f (x ∷ xs) h = (f x h.0, All-imp P Q f xs h.1)

  pub All-both {κ μ ν} :
      (P : A → Type κ) (Q : A → Type μ) (R : A → Type ν)
      → ((a : A) → P a → Q a → R a)
      → (xs : List A) → All P xs
      → All Q xs
      → All R xs
  All-both P Q R f [] h k = tt
  All-both P Q R f (x ∷ xs) h k = (f x h.0 k.0, All-both P Q R f xs h.1 k.1)

  -- The first element that passes a test, and the list without it.
  unfoldable pub split_first : (A → Bool) → List A → Option (A × List A)
  split_first p [] = none
  split_first p (x ∷ xs) =
      if p x
      then some (x, xs)
      else elim (split_first p xs) [ none ↦ none | some (y, rest) ↦ some (y, x ∷ rest) ]

  -- A predicate on what an option holds.
  abbrev pub OnSome {κ} : (A → Type κ) → Option A → Type κ
  OnSome P none = Unit
  OnSome P (some x) = P x

  -- How many elements stand in the values of a list of lists.
  abbrev pub total : List (List A) → ℕ
  total [] = 0
  total (d ∷ ds) = length d + total ds

-- What `split_first` finds: all before it fails the test.
pub data Split {ℓ} {A : Type ℓ} (p : A → Bool) (xs : List A) (o : Option (A × List A))
    : Type ℓ where
  missing : All (λ x. p x ≡ false) xs → o ≡ none → Split p xs o
  found :
      (before : List A) (x : A) (after : List A)
      → xs ≡ before ++ x ∷ after
      → All (λ y. p y ≡ false) before
      → p x ≡ true
      → o ≡ some (x, before ++ after)
      → Split p xs o

pub split_first-Split {ℓ} :
    {A : Type ℓ} (p : A → Bool) (xs : List A) → Split p xs (split_first p xs)
unfolding split_first
split_first-Split p [] = missing tt refl
split_first-Split p (x ∷ xs) = elim (Bool-cases (p x)) [
  | inl e ↦ found [] x xs refl tt e (rw e)
  | inr e ↦ elim (split_first-Split p xs) [
    | missing none_passes h ↦ missing (e, none_passes) (rw (e, h))
    | found before y after s fail pass h ↦
        found (x ∷ before) y after (rw s) (e, fail) pass (rw (e, h))
  ]
]
