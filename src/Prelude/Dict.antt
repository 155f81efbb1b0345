-- ===== src/Prelude/Dict.antt =====
-- A Python dict with text keys, as a list of its items in the order of their insertion.
use Prim.Native.Nat.{ℕ, ◌+◌}
use Prim.Native.String.{String}
use mathlib.Core.Path.{◌≡◌, refl}
use mathlib.Core.Logic.{ite}
use mathlib.Core.Option.{Option, none, some}
use mathlib.Core.List.{List, [], ◌∷◌, map}
use native.Mathlib.Omega.{arith}
use tlo.Prelude.Tests.{text_dec}

abbrev pub Dict {ℓ} : Type ℓ → Type ℓ
Dict V = List (String × V)

module _ {ℓ} {V : Type ℓ} where
  unfoldable pub lookup : String → Dict V → Option V
  lookup k [] = none
  lookup k ((j, v) ∷ m) = ite (text_dec j k) (some v) (lookup k m)

  unfoldable pub insert : String → V → Dict V → Dict V
  insert k v [] = (k, v) ∷ []
  insert k v ((j, w) ∷ m) = ite (text_dec j k) ((j, v) ∷ m) ((j, w) ∷ insert k v m)

  unfoldable pub delete : String → Dict V → Dict V
  delete k [] = []
  delete k ((j, v) ∷ m) = ite (text_dec j k) m ((j, v) ∷ delete k m)

  abbrev pub keys : Dict V → List String
  keys = map (λ e. e.0)

  abbrev pub values : Dict V → List V
  values = map (λ e. e.1)

  -- No key stands twice.
  abbrev pub IsDistinct : Dict V → Type ℓ
  IsDistinct [] = Unit
  IsDistinct ((j, v) ∷ m) = (lookup j m ≡ none) × IsDistinct m

  pub lookup-insert :
      (k j : String) (v : V) (m : Dict V)
      → lookup j (insert k v m) ≡ ite (text_dec k j) (some v) (lookup j m)
  unfolding lookup insert
  lookup-insert k j v [] = refl
  lookup-insert k j v ((i, w) ∷ m) = ground (arith, lookup-insert k j v m)

module _ {V : Type 0} where
  pub insert-IsDistinct :
      (k : String) (v : V) (m : Dict V) → IsDistinct m → IsDistinct (insert k v m)
  unfolding insert lookup
  insert-IsDistinct k v [] h = (refl, tt)
  insert-IsDistinct k v ((j, w) ∷ m) h =
      ground (arith, insert-IsDistinct k v m h.1, lookup-insert k j v m)

  lookup-delete_absent :
      (k j : String) (m : Dict V) → lookup j m ≡ none → lookup j (delete k m) ≡ none
  unfolding delete lookup
  lookup-delete_absent k j [] h = refl
  lookup-delete_absent k j ((i, w) ∷ m) h = ground (arith, lookup-delete_absent k j m)

  pub delete-IsDistinct : (k : String) (m : Dict V) → IsDistinct m → IsDistinct (delete k m)
  unfolding delete lookup
  delete-IsDistinct k [] h = tt
  delete-IsDistinct k ((j, w) ∷ m) h =
      ground (arith, delete-IsDistinct k m h.1, lookup-delete_absent k j m h.0)

  -- Where no key stands twice, deleting takes the key away and nothing else.
  pub lookup-delete :
      (k j : String) (m : Dict V)
      → IsDistinct m
      → lookup j (delete k m) ≡ ite (text_dec k j) none (lookup j m)
  unfolding delete lookup
  lookup-delete k j [] h = ground arith
  lookup-delete k j ((i, w) ∷ m) h = ground (arith, lookup-delete k j m h.1)

-- `m[k] += 1` over a `defaultdict(int)`.
unfoldable pub add_one : String → Dict ℕ → Dict ℕ
add_one k [] = (k, 1) ∷ []
add_one k ((j, n) ∷ m) = ite (text_dec j k) ((j, n + 1) ∷ m) ((j, n) ∷ add_one k m)
