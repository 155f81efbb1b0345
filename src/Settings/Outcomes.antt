-- ===== src/Settings/Outcomes.antt =====
-- settings.py, the Loader: the outcomes of its steps that are no ValueError.
use tlo.Prelude.{String, Option, none, some, List, [], ◌∷◌, All, ite, ℕ, inl, inr, arith, subst}
use tlo.Prelude.Dict
use tlo.Prelude.Dict.{Dict}
use tlo.Errors.{Result, ok, raise, value_error, Result-cases}
use tlo.Settings.{Value, Entries, Fields, no_fields, field}
use tlo.Settings.Lookup.{Load, built, instantiate, with_entry, given_or, loaded, coerced, unwrap}
use tlo.Settings.Load.{add_kwarg}

-- An outcome that is not a ValueError.
abbrev pub NotValueError : {A : Type 0} → Result A → Type 0
NotValueError (ok a) = Unit
NotValueError (raise value_error) = ⊥
NotValueError (raise e) = Unit

pub ite-NotValueError :
    {P A : Type 0} (d : Dec P) (r s : Result A)
    → NotValueError r
    → NotValueError s
    → NotValueError (ite d r s)
ite-NotValueError (yes p) r s h k = h
ite-NotValueError (no n) r s h k = k

module _ {F : Type 0} where
  pub coerced-NotValueError : (r : Result (Value F)) → NotValueError (coerced r)
  unfolding coerced
  coerced-NotValueError (ok v) = tt
  coerced-NotValueError (raise value_error) = tt
  coerced-NotValueError (raise e) = tt

  pub loaded-NotValueError : (r : Result (Value F)) → NotValueError r → NotValueError (loaded r)
  unfolding loaded
  loaded-NotValueError (ok v) h = tt
  loaded-NotValueError (raise e) h = h

  pub given_or-NotValueError : (o d : Option (Value F)) → NotValueError (given_or o d)
  unfolding given_or
  given_or-NotValueError (some v) d = tt
  given_or-NotValueError none (some v) = tt
  given_or-NotValueError none none = tt

  pub with_entry-NotValueError :
      (name : String) (r : Result (Value F)) (es : Result (Entries F))
      → NotValueError r
      → NotValueError es
      → NotValueError (with_entry name r es)
  unfolding with_entry
  with_entry-NotValueError name (ok v) (ok es) h k = tt
  with_entry-NotValueError name (ok v) (raise e) h k = k
  with_entry-NotValueError name (raise e) es h k = h

  pub instantiate-NotValueError :
      (fields : Fields F) (kwargs : Dict (Value F)) → NotValueError (instantiate fields kwargs)
  unfolding instantiate
  instantiate-NotValueError no_fields kwargs = tt
  instantiate-NotValueError (field name hint m default rest) kwargs =
      with_entry-NotValueError name _ _ (given_or-NotValueError (Dict.lookup name kwargs) default)
        (instantiate-NotValueError rest kwargs)

  pub built-NotValueError :
      (name : String) (members : Fields F) (r : Result (Dict (Value F)))
      → NotValueError r
      → NotValueError (built name members r)
  unfolding built
  built-NotValueError name members (raise e) h = h
  built-NotValueError name members (ok kwargs) h =
      let k : NotValueError (instantiate members kwargs) =
        instantiate-NotValueError members kwargs in
      elim (Result-cases (instantiate members kwargs)) [
        | inl (es, e) ↦ rw (built, e) tt
        | inr (x, e) ↦ rw (built, e) (subst NotValueError e k)
      ]

  pub add_kwarg-NotValueError :
      (name : String) (r : Result (Option (Value F))) (rest : Result (Dict (Value F)))
      → NotValueError r
      → NotValueError rest
      → NotValueError (add_kwarg name r rest)
  unfolding add_kwarg
  add_kwarg-NotValueError name (raise e) rest h k = h
  add_kwarg-NotValueError name (ok o) (raise e) h k = k
  add_kwarg-NotValueError name (ok none) (ok kwargs) h k = tt
  add_kwarg-NotValueError name (ok (some v)) (ok kwargs) h k = tt

  -- A loader that never ends in a ValueError.
  abbrev pub IsSafe : String × Load F → Type 0
  IsSafe c = (parents : List String) (overrides : Entries F) → NotValueError (c.1 parents overrides)

  abbrev pub SafeHint : Result (Option (String × Load F)) → Type 0
  SafeHint (ok none) = Unit
  SafeHint (ok (some c)) = IsSafe c
  SafeHint (raise value_error) = ⊥
  SafeHint (raise e) = Unit

  pub unwrap-Safe :
      (total nones : ℕ) (cs : List (String × Load F))
      → All IsSafe cs
      → SafeHint (unwrap total nones cs)
  unfolding unwrap
  unwrap-Safe total nones [] h = tt
  unwrap-Safe total nones (c ∷ cs) (h, hs) = ground arith
