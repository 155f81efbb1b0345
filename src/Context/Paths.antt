-- ===== src/Context/Paths.antt =====
-- context.py: which paths `rsplit` takes apart.
use Prim.Native.String.append
use Prim.Native.Char.{Char, code}
use text.Mathlib.TextEquality.{codes_equal}
use tlo.Prelude.{
  ◌≡◌, refl, sym, ◌∙◌, ap, String, ◌==◌, true, false, Bool-cases, none, some, List, inl, inr, ◌⊎◌,
  arith,
}
use tlo.Prelude.Text.{◌<>◌}
use tlo.Errors.{Result, raise, value_error}
use tlo.Context.{rsplit, Kind, imported, initialize_by_py_path}

abbrev pub NoDot : String → Type 0
NoDot String.[] = Unit
NoDot (String.◌∷◌ c s) = ((code c == 46) ≡ false) × NoDot s

rsplit-NoDot : (s : String) → NoDot s → rsplit s ≡ none
unfolding rsplit
rsplit-NoDot String.[] h = refl
rsplit-NoDot (String.◌∷◌ c s) h = rw (rsplit-NoDot s h.1, h.0) refl

is_dot : (c : Char) → (code c == 46) ≡ true → c ≡ "."
is_dot c h = codes_equal c "." (ground (arith, h))

cons_dot : (s : String) → "" <> ("." <> s) ≡ String.◌∷◌ "." s
cons_dot s =
    (λ i. append.nil ("." <> s) i)
    ∙ ((λ i. append.cons "." "" s i) ∙ ap (String.◌∷◌ ".") (λ i. append.nil s i))

rsplit-Split :
    (path : String)
    → (NoDot path × (rsplit path ≡ none))
      ⊎ ((owner : String) × ((klass : String) × ((rsplit path ≡ some (owner, klass))
              × ((path ≡ owner <> ("." <> klass)) × NoDot klass))))
unfolding rsplit
rsplit-Split String.[] = inl (tt, refl)
rsplit-Split (String.◌∷◌ c s) = elim (rsplit-Split s) [
  | inl (h, e) ↦ elim (Bool-cases (code c == 46)) [
    | inl d ↦
        inr
          ("", (s, (rw (e, d) refl, (ap (λ x. String.◌∷◌ x s) (is_dot c d) ∙ sym (cons_dot s), h))))
    | inr d ↦ inl ((d, h), rw (e, d) refl)
  ]
  | inr (owner, (klass, (e, (p, h)))) ↦ inr (
    String.◌∷◌ c owner,
    (
      klass,
      (rw (e) refl, (ap (String.◌∷◌ c) p ∙ sym (λ i. append.cons c owner ("." <> klass) i), h)),
    ),
  )
]

-- A path with no dot ends in a ValueError. Any other path is a module's path, a dot and a name
-- without a dot, and the result is that of importing this module and calling its attribute of this
-- name.
pub initialize_by_py_path-Split :
    {M A I : Type 0} (import_module : String → Result M) (kind : Kind M A I)
    (expected_type : List String) (path : String) (kwargs : A)
    → (NoDot path
        × (initialize_by_py_path import_module kind expected_type path kwargs ≡ raise value_error))
      ⊎ ((owner : String) × ((klass : String) × ((path ≡ owner <> ("." <> klass))
              × (NoDot klass
                  × (initialize_by_py_path import_module kind expected_type path kwargs
                      ≡ imported import_module kind expected_type owner klass kwargs)))))
unfolding initialize_by_py_path
initialize_by_py_path-Split import_module kind expected_type path kwargs =
    elim (rsplit-Split path) [
      | inl (h, e) ↦ inl (h, rw (initialize_by_py_path, e) refl)
      | inr (owner, (klass, (e, (p, h)))) ↦
          inr (owner, (klass, (p, (h, rw (initialize_by_py_path, e) refl))))
    ]
