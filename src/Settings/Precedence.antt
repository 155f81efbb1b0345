-- ===== src/Settings/Precedence.antt =====
-- settings.py, the Loader: where the value of a scalar field comes from.
use tlo.Prelude.{
  ◌≡◌, refl, sym, ◌∙◌, ap, subst, String, Option, none, some, List, [], ◌∷◌, All, map, inl, inr,
  Option-cases,
}
use tlo.Prelude.Text.{join}
use tlo.Prelude.Dict
use tlo.Prelude.Dict.{Dict}
use tlo.Errors.{Result, ok, raise, value_error, type_error}
use tlo.Settings.{
  Value, Entries, Meta, AliasesMeta, no_aliases, aliases, bad_aliases, CoercerMeta, no_coercer,
  coercer, bad_coercer, str,
}
use tlo.Settings.Coercers.{identity}
use tlo.Settings.Lookup.{
  get_raw_aliases, first_set, with_prefix, find, given_or, get_coercer, coerced,
}
use tlo.Settings.Load.{load_from_env, load_scalar_field, load_candidates}

-- The first of the names that the environment sets, with its value.
pub data FirstSet (env : Dict String) : List String → String → Type 0 where
  here :
      {name value : String} {names : List String}
      → Dict.lookup name env ≡ some value
      → FirstSet env (name ∷ names) value
  later :
      {name value : String} {names : List String}
      → Dict.lookup name env ≡ none
      → FirstSet env names value
      → FirstSet env (name ∷ names) value

abbrev pub Unset : Dict String → String → Type 0
Unset env name = Dict.lookup name env ≡ none

abbrev pub names_of : AliasesMeta → List String
names_of no_aliases = []
names_of (aliases names) = names
names_of bad_aliases = []

module _ {F : Type 0} where
  -- What the coercer of a field makes of a text.
  abbrev pub applied : CoercerMeta F → String → Result (Value F)
  applied no_coercer s = ok (str s)
  applied (coercer f) s = f s
  applied bad_coercer s = raise type_error

-- The names that a scalar field is read from: its path, then its aliases.
abbrev pub names : String → AliasesMeta → List String → List String
names root_prefix a segments = map (with_prefix root_prefix) (join "__" segments ∷ names_of a)

-- The value of a scalar field: its override, or the first variable set, or its default.
pub data Chosen {F : Type 0} (env : Dict String) (root_prefix n : String) (m : Meta F)
    (default : Option (Value F)) (segments : List String) (overrides : Entries F)
    : Value F → Type 0 where
  by_override :
      {v : Value F}
      → find n overrides ≡ some v
      → Chosen env root_prefix n m default segments overrides v
  by_env :
      {v : Value F} {s : String}
      → find n overrides ≡ none
      → FirstSet env (names root_prefix m.env_aliases segments) s
      → applied m.env_coercer s ≡ ok v
      → Chosen env root_prefix n m default segments overrides v
  by_default :
      {v : Value F}
      → find n overrides ≡ none
      → All (Unset env) (names root_prefix m.env_aliases segments)
      → default ≡ some v
      → Chosen env root_prefix n m default segments overrides v

module _ (env : Dict String) (n : String) (ns : List String) where
  first_set-some : (v : String) → Dict.lookup n env ≡ some v → first_set env (n ∷ ns) ≡ some v
  unfolding first_set
  first_set-some v e = rw (first_set, e) refl

  first_set-none : Dict.lookup n env ≡ none → first_set env (n ∷ ns) ≡ first_set env ns
  unfolding first_set
  first_set-none e = rw (first_set, e) refl

first_set-FirstSet :
    (env : Dict String) (ns : List String) (s : String)
    → first_set env ns ≡ some s
    → FirstSet env ns s
unfolding first_set
first_set-FirstSet env [] s h = absurd (cc h)
first_set-FirstSet env (n ∷ ns) s h = elim (Option-cases (Dict.lookup n env)) [
  | inl e ↦ later e (first_set-FirstSet env ns s (sym (first_set-none env n ns e) ∙ h))
  | inr (v, e) ↦ here (e ∙ (sym (first_set-some env n ns v e) ∙ h))
]

first_set-Unset :
    (env : Dict String) (ns : List String) → first_set env ns ≡ none → All (Unset env) ns
unfolding first_set
first_set-Unset env [] h = tt
first_set-Unset env (n ∷ ns) h = elim (Option-cases (Dict.lookup n env)) [
  | inl e ↦ (e, first_set-Unset env ns (sym (first_set-none env n ns e) ∙ h))
  | inr (v, e) ↦ absurd (cc (first_set-some env n ns v e, h))
]

module _ {F : Type 0} (env : Dict String) (root_prefix : String) where
  -- What the environment gives a field with these names and this coercer.
  abbrev EnvGives : (String → Result (Value F)) → List String → Option (Value F) → Type 0
  EnvGives f ns none = All (Unset env) ns
  EnvGives f ns (some v) = (s : String) × (FirstSet env ns s × (f s ≡ ok v))

  coerced-ok :
      (r : Result (Value F)) (o : Option (Value F))
      → coerced r ≡ ok o
      → (v : Value F) × ((o ≡ some v) × (r ≡ ok v))
  unfolding coerced
  coerced-ok (ok v) o h = (v, (cc h, refl))
  coerced-ok (raise value_error) o h = absurd (cc h)
  coerced-ok (raise e) o h = absurd (cc h)

  load_candidates-EnvGives :
      (f : String → Result (Value F)) (ns : List String) (o : Option (Value F))
      → load_candidates env root_prefix f ns ≡ ok o
      → EnvGives f ns o
  unfolding load_candidates
  load_candidates-EnvGives f ns o h = elim (Option-cases (first_set env ns)) [
    | inl e ↦
        let k : load_candidates env root_prefix f ns ≡ ok none = rw (load_candidates, e) refl in
        let q : none ≡ o = cc (k, h) in subst (EnvGives f ns) q (first_set-Unset env ns e)
    | inr (s, e) ↦
        let k : load_candidates env root_prefix f ns ≡ coerced (f s) =
          rw (load_candidates, e) refl in
        let (v, (p, q)) = coerced-ok (f s) o (sym k ∙ h) in
        subst (EnvGives f ns) (sym p) (s, (first_set-FirstSet env ns s e, q))
  ]

  load_from_env-EnvGives :
      (a : AliasesMeta) (c : CoercerMeta F) (segments : List String) (o : Option (Value F))
      → load_from_env env root_prefix (record { env_aliases = a; env_coercer = c }) segments ≡ ok o
      → EnvGives (applied c) (names root_prefix a segments) o
  unfolding load_from_env get_raw_aliases get_coercer identity
  load_from_env-EnvGives bad_aliases c segments o h = absurd (cc h)
  load_from_env-EnvGives no_aliases no_coercer segments o h = load_candidates-EnvGives _ _ o h
  load_from_env-EnvGives no_aliases (coercer f) segments o h = load_candidates-EnvGives _ _ o h
  load_from_env-EnvGives no_aliases bad_coercer segments o h = absurd (cc h)
  load_from_env-EnvGives (aliases ns) no_coercer segments o h = load_candidates-EnvGives _ _ o h
  load_from_env-EnvGives (aliases ns) (coercer f) segments o h = load_candidates-EnvGives _ _ o h
  load_from_env-EnvGives (aliases ns) bad_coercer segments o h = absurd (cc h)

  from_env-Chosen :
      (n : String) (m : Meta F) (default o : Option (Value F)) (segments : List String)
      (overrides : Entries F) (v : Value F)
      → find n overrides ≡ none
      → EnvGives (applied m.env_coercer) (names root_prefix m.env_aliases segments) o
      → given_or o default ≡ ok v
      → Chosen env root_prefix n m default segments overrides v
  unfolding given_or
  from_env-Chosen n m default (some w) segments overrides v e (s, (p, q)) g = by_env e p (q ∙ g)
  from_env-Chosen n m (some d) none segments overrides v e h g = by_default e h (cc g)
  from_env-Chosen n m none none segments overrides v e h g = absurd (cc g)

  pub load_scalar_field-Chosen :
      (n : String) (m : Meta F) (default o : Option (Value F)) (segments : List String)
      (overrides : Entries F) (v : Value F)
      → load_scalar_field env root_prefix m n overrides segments ≡ ok o
      → given_or o default ≡ ok v
      → Chosen env root_prefix n m default segments overrides v
  unfolding load_scalar_field given_or
  load_scalar_field-Chosen n m default o segments overrides v h g =
      elim (Option-cases (find n overrides)) [
        | inl e ↦
            let k : load_scalar_field env root_prefix m n overrides segments
                ≡ load_from_env env root_prefix m segments =
              rw (load_scalar_field, e) refl in
            from_env-Chosen n m default o segments overrides v e
              (load_from_env-EnvGives m.env_aliases m.env_coercer segments o (sym k ∙ h)) g
        | inr (w, e) ↦
            let k : load_scalar_field env root_prefix m n overrides segments ≡ ok (some w) =
              rw (load_scalar_field, e) refl in
            let p : some w ≡ o = cc (k, h) in
            let q : given_or (some w) default ≡ ok v = ap (λ x. given_or x default) p ∙ g in
            by_override (e ∙ cc q)
      ]
