-- ===== src/Prelude/Sort.antt =====
-- `sorted(xs, key=f)` and `xs.sort(key=f)`: the stable sort by a key that Python documents.
use Prim.Native.Nat.{ℕ, ◌≤◌, suc}
use mathlib.Core.Path.{◌≡◌, refl}
use mathlib.Core.List.{List, [], ◌∷◌, filter, Perm}
use mathlib.Core.List.Perm
use mathlib.Core.Logic.{ite, if_pos, if_neg}
use native.Mathlib.Omega.{arith}
use native.Mathlib.Decide.{dec_le}
use tlo.Prelude.Lists.{All, length}

module _ {A : Type 0} (key : A → ℕ) where
  -- An element goes in front of those with the same key, which stand behind it in the input.
  unfoldable pub insert_by : A → List A → List A
  insert_by x [] = x ∷ []
  insert_by x (y ∷ ys) = ite (dec_le (key x) (key y)) (x ∷ y ∷ ys) (y ∷ insert_by x ys)

  unfoldable pub sort_by : List A → List A
  unfolding insert_by
  sort_by [] = []
  sort_by (x ∷ xs) = insert_by x (sort_by xs)

  abbrev pub IsAbove : ℕ → List A → Type 0
  IsAbove k [] = Unit
  IsAbove k (x ∷ xs) = (k ≤ key x) × IsAbove k xs

  abbrev pub IsSorted : List A → Type 0
  IsSorted [] = Unit
  IsSorted (x ∷ xs) = IsAbove (key x) xs × IsSorted xs

  pub IsAbove-mono : (j k : ℕ) (xs : List A) → j ≤ k → IsAbove k xs → IsAbove j xs
  IsAbove-mono j k [] h a = tt
  IsAbove-mono j k (x ∷ xs) h a = (omega arith, IsAbove-mono j k xs h a.1)

  insert_by-IsAbove :
      (k : ℕ) (x : A) (xs : List A) → k ≤ key x → IsAbove k xs → IsAbove k (insert_by x xs)
  unfolding insert_by
  insert_by-IsAbove k x [] h a = (h, tt)
  insert_by-IsAbove k x (y ∷ ys) h a = ground (arith, insert_by-IsAbove k x ys h a.1)

  insert_by-IsSorted : (x : A) (xs : List A) → IsSorted xs → IsSorted (insert_by x xs)
  unfolding insert_by
  insert_by-IsSorted x [] s = (tt, tt)
  insert_by-IsSorted x (y ∷ ys) s = ground (
    arith,
    insert_by-IsSorted x ys s.1,
    IsAbove-mono (key x) (key y) ys,
    insert_by-IsAbove (key y) x ys,
  )

  pub sort_by-IsSorted : (xs : List A) → IsSorted (sort_by xs)
  unfolding sort_by
  sort_by-IsSorted [] = tt
  sort_by-IsSorted (x ∷ xs) = insert_by-IsSorted x (sort_by xs) (sort_by-IsSorted xs)

  insert_by_of_IsAbove : (x : A) (xs : List A) → IsAbove (key x) xs → insert_by x xs ≡ x ∷ xs
  unfolding insert_by
  insert_by_of_IsAbove x [] a = refl
  insert_by_of_IsAbove x (y ∷ ys) a = ground arith

  -- A sorted list stays as it is.
  pub sort_by_of_IsSorted : (xs : List A) → IsSorted xs → sort_by xs ≡ xs
  unfolding sort_by
  sort_by_of_IsSorted [] s = refl
  sort_by_of_IsSorted (x ∷ xs) s = rw (sort_by_of_IsSorted xs s.1) (insert_by_of_IsAbove x xs s.0)

  insert_by-perm : (x : A) (xs : List A) → Perm (insert_by x xs) (x ∷ xs)
  unfolding insert_by
  insert_by-perm x [] = Perm.rfl
  insert_by-perm x (y ∷ ys) = elim (dec_le (key x) (key y)) [
    | yes p ↦ rw (if_pos _ p) Perm.rfl
    | no p ↦ rw (if_neg _ p) (Perm.trans (Perm.cons y (insert_by-perm x ys)) (Perm.swap x y ys))
  ]

  pub sort_by-perm : (xs : List A) → Perm (sort_by xs) xs
  unfolding sort_by
  sort_by-perm [] = Perm.rfl
  sort_by-perm (x ∷ xs) = Perm.trans (insert_by-perm x (sort_by xs)) (Perm.cons x (sort_by-perm xs))

  length-insert_by : (x : A) (xs : List A) → length (insert_by x xs) ≡ suc (length xs)
  unfolding insert_by
  length-insert_by x [] = refl
  length-insert_by x (y ∷ ys) = ground (arith, length-insert_by x ys)

  pub length-sort_by : (xs : List A) → length (sort_by xs) ≡ length xs
  unfolding sort_by
  length-sort_by [] = refl
  length-sort_by (x ∷ xs) = omega (arith, length-insert_by x (sort_by xs), length-sort_by xs)

  pub All-insert_by {κ} :
      (P : A → Type κ) (x : A) (xs : List A) → P x → All P xs → All P (insert_by x xs)
  unfolding insert_by
  All-insert_by P x [] p h = (p, tt)
  All-insert_by P x (y ∷ ys) p h = ground (arith, All-insert_by P x ys p h.1)

  pub All-sort_by {κ} : (P : A → Type κ) (xs : List A) → All P xs → All P (sort_by xs)
  unfolding sort_by
  All-sort_by P [] h = tt
  All-sort_by P (x ∷ xs) h = All-insert_by P x (sort_by xs) h.0 (All-sort_by P xs h.1)

  insert_by-All {κ} :
      (P : A → Type κ) (x : A) (xs : List A) → All P (insert_by x xs) → P x × All P xs
  unfolding insert_by
  insert_by-All P x [] h = h
  insert_by-All P x (y ∷ ys) h = ground (arith, insert_by-All P x ys)

  pub sort_by-All {κ} : (P : A → Type κ) (xs : List A) → All P (sort_by xs) → All P xs
  unfolding sort_by
  sort_by-All P [] h = tt
  sort_by-All P (x ∷ xs) h =
      let (p, k) = insert_by-All P x (sort_by xs) h in (p, sort_by-All P xs k)

  module _ {κ} {Q : A → Type κ} (d : (a : A) → Dec (Q a)) where
    pub filter-IsAbove : (k : ℕ) (xs : List A) → IsAbove k xs → IsAbove k (filter d xs)
    filter-IsAbove k [] a = tt
    filter-IsAbove k (x ∷ xs) a = ground (arith, filter-IsAbove k xs a.1)

    pub filter-IsSorted : (xs : List A) → IsSorted xs → IsSorted (filter d xs)
    filter-IsSorted [] s = tt
    filter-IsSorted (x ∷ xs) s =
        ground (arith, filter-IsSorted xs s.1, filter-IsAbove (key x) xs s.0)

    filter-insert_by :
        (x : A) (xs : List A)
        → IsSorted xs
        → filter d (insert_by x xs) ≡ ite (d x) (insert_by x (filter d xs)) (filter d xs)
    unfolding insert_by
    filter-insert_by x [] s = ground arith
    filter-insert_by x (y ∷ ys) s = ground (
      arith,
      filter-insert_by x ys s.1,
      insert_by_of_IsAbove x (filter d ys),
      filter-IsAbove (key x) ys,
      IsAbove-mono (key x) (key y) ys,
    )

    -- The sort is stable: to pick out a part and to sort it may be done in either order.
    pub filter-sort_by : (xs : List A) → filter d (sort_by xs) ≡ sort_by (filter d xs)
    unfolding sort_by
    filter-sort_by [] = refl
    filter-sort_by (x ∷ xs) =
        ground (arith, filter-insert_by x (sort_by xs) (sort_by-IsSorted xs), filter-sort_by xs)
