-- ===== src/Settings/Kwargs.antt =====
-- settings.py, the Loader: the fields of the settings that `load` builds.
use tlo.Prelude.{
  ◌≡◌, refl, sym, ◌∙◌, ap, subst, String, Option, none, some, List, [], ◌∷◌, ◌++◌, inl, inr, arith,
}
use tlo.Prelude.Text.{upper}
use tlo.Prelude.Dict
use tlo.Prelude.Dict.{Dict}
use tlo.Errors.{Result, ok, raise, Result-cases}
use tlo.Settings.{
  Value, instance_of, Entries, entry, Meta, Fields, no_fields, field, Hint, settings_class,
}
use tlo.Settings.Scalar.{IsScalar, load_hint-IsScalar}
use tlo.Settings.Lookup.{find, built, instantiate, with_entry, given_or}
use tlo.Settings.Load.{load, load_fields, load_hint, load_field, load_scalar_field, add_kwarg}
use tlo.Settings.Precedence.{Chosen, load_scalar_field-Chosen}

module _ {F : Type 0} where
  -- A class's field, by its name, type, metadata and default.
  pub data InFields : Fields F → String → Hint F → Meta F → Option (Value F) → Type 0 where
    here :
        {n : String} {hint : Hint F} {m : Meta F} {d : Option (Value F)} {rest : Fields F}
        → InFields (field n hint m d rest) n hint m d
    later :
        {n k : String} {hint g : Hint F} {m l : Meta F} {d e : Option (Value F)} {rest : Fields F}
        → InFields rest n hint m d
        → InFields (field k g l e rest) n hint m d

  abbrev pub Absent : String → Fields F → Type 0
  Absent n no_fields = Unit
  Absent n (field k hint m d rest) = (¬ (k ≡ n)) × Absent n rest

  -- No two fields have one name.
  abbrev pub IsDistinct : Fields F → Type 0
  IsDistinct no_fields = Unit
  IsDistinct (field n hint m d rest) = Absent n rest × IsDistinct rest

  InFields-Absent :
      {fields : Fields F} {n k : String} {hint : Hint F} {m : Meta F} {d : Option (Value F)}
      → InFields fields n hint m d
      → Absent k fields
      → ¬ (k ≡ n)
  InFields-Absent here h = λ e. h.0 (sym e)
  InFields-Absent (later i) h = InFields-Absent i h.1

  with_kwarg : String → Option (Value F) → Dict (Value F) → Dict (Value F)
  with_kwarg name none kwargs = kwargs
  with_kwarg name (some v) kwargs = (name, v) ∷ kwargs

  add_kwarg-ok :
      (name : String) (r : Result (Option (Value F))) (rest : Result (Dict (Value F)))
      (kwargs : Dict (Value F))
      → add_kwarg name r rest ≡ ok kwargs
      → (o : Option (Value F)) × ((r ≡ ok o)
          × ((ks : Dict (Value F)) × ((rest ≡ ok ks) × (with_kwarg name o ks ≡ kwargs))))
  unfolding add_kwarg with_kwarg
  add_kwarg-ok name (raise e) rest kwargs h = absurd (cc h)
  add_kwarg-ok name (ok o) (raise e) kwargs h = absurd (cc h)
  add_kwarg-ok name (ok none) (ok ks) kwargs h = (none, (refl, (ks, (refl, cc h))))
  add_kwarg-ok name (ok (some v)) (ok ks) kwargs h = (some v, (refl, (ks, (refl, cc h))))

  lookup-with_kwarg_same :
      (n : String) (o : Option (Value F)) (ks : Dict (Value F))
      → Dict.lookup n ks ≡ none
      → Dict.lookup n (with_kwarg n o ks) ≡ o
  unfolding with_kwarg Dict.lookup
  lookup-with_kwarg_same n none ks h = h
  lookup-with_kwarg_same n (some v) ks h = ground arith

  lookup-with_kwarg_other :
      (k n : String) (o : Option (Value F)) (ks : Dict (Value F))
      → ¬ (k ≡ n)
      → Dict.lookup n (with_kwarg k o ks) ≡ Dict.lookup n ks
  unfolding with_kwarg Dict.lookup
  lookup-with_kwarg_other k n none ks h = refl
  lookup-with_kwarg_other k n (some v) ks h = ground arith

  with_entry-ok :
      (name : String) (r : Result (Value F)) (rest : Result (Entries F)) (es : Entries F)
      → with_entry name r rest ≡ ok es
      → (v : Value F) × ((r ≡ ok v)
          × ((ks : Entries F) × ((rest ≡ ok ks) × (entry name v ks ≡ es))))
  unfolding with_entry
  with_entry-ok name (ok v) (ok ks) es h = (v, (refl, (ks, (refl, cc h))))
  with_entry-ok name (ok v) (raise e) es h = absurd (cc h)
  with_entry-ok name (raise e) rest es h = absurd (cc h)

  -- What the instance holds in a field.
  pub instantiate-find :
      (fields : Fields F) (kwargs : Dict (Value F)) (es : Entries F) {n : String} {hint : Hint F}
      {m : Meta F} {d : Option (Value F)}
      → instantiate fields kwargs ≡ ok es
      → InFields fields n hint m d
      → IsDistinct fields
      → (v : Value F) × ((find n es ≡ some v) × (given_or (Dict.lookup n kwargs) d ≡ ok v))
  unfolding instantiate find
  instantiate-find no_fields kwargs es h i u = elim i [ ]
  instantiate-find (field n hint m d rest) kwargs es h here u =
      let (v, (p, (ks, (q, e)))) = with_entry-ok n _ _ es h in
      (v, (subst (λ x. find n x ≡ some v) e (ground arith), p))
  instantiate-find (field k g l c rest) kwargs es {n} h (later i) u =
      let (w, (p, (ks, (q, e)))) = with_entry-ok k _ _ es h in
      let (v, (a, b)) = instantiate-find rest kwargs ks q i u.1 in
      let ne : ¬ (k ≡ n) = InFields-Absent i u.0 in
      (v, (subst (λ x. find n x ≡ some v) e (ground arith), b))

  pub built-ok :
      (name : String) (members : Fields F) (r : Result (Dict (Value F))) (v : Value F)
      → built name members r ≡ ok v
      → (kwargs : Dict (Value F)) × ((r ≡ ok kwargs)
          × ((es : Entries F) × ((instantiate members kwargs ≡ ok es) × (v ≡ instance_of name es))))
  unfolding built
  built-ok name members (raise e) v h = absurd (cc h)
  built-ok name members (ok kwargs) v h = elim (Result-cases (instantiate members kwargs)) [
    | inl (es, e) ↦
        let k : built name members (ok kwargs) ≡ ok (instance_of name es) = rw (built, e) refl in
        (kwargs, (refl, (es, (e, cc (k, h)))))
    | inr (x, e) ↦
        let k : built name members (ok kwargs) ≡ raise x = rw (built, e) refl in absurd (cc (k, h))
  ]

module _ {F : Type 0} (env : Dict String) (root_prefix : String) where
  load_fields-Absent :
      (fields : Fields F) (parents : List String) (overrides : Entries F) (kwargs : Dict (Value F))
      (n : String)
      → load_fields env root_prefix fields parents overrides ≡ ok kwargs
      → Absent n fields
      → Dict.lookup n kwargs ≡ none
  unfolding load Dict.lookup
  load_fields-Absent no_fields parents overrides kwargs n h a =
      let e : [] ≡ kwargs = cc h in subst (λ x. Dict.lookup n x ≡ none) e refl
  load_fields-Absent (field k hint m d rest) parents overrides kwargs n h a =
      let (o, (p, (ks, (q, e)))) = add_kwarg-ok k _ _ kwargs h in
      subst (λ x. Dict.lookup n x ≡ none) e
        (lookup-with_kwarg_other k n o ks a.0
          ∙ load_fields-Absent rest parents overrides ks n q a.1)

  -- What the loop makes of a field is what stands in the arguments.
  pub load_fields-lookup :
      (fields : Fields F) (parents : List String) (overrides : Entries F) (kwargs : Dict (Value F))
      {n : String} {hint : Hint F} {m : Meta F} {d : Option (Value F)}
      → load_fields env root_prefix fields parents overrides ≡ ok kwargs
      → InFields fields n hint m d
      → IsDistinct fields
      → load_field env root_prefix n (load_hint env root_prefix hint) m parents overrides
        ≡ ok (Dict.lookup n kwargs)
  unfolding load
  load_fields-lookup no_fields parents overrides kwargs h i u = elim i [ ]
  load_fields-lookup (field n hint m d rest) parents overrides kwargs h here u =
      let (o, (p, (ks, (q, e)))) = add_kwarg-ok n _ _ kwargs h in
      let absent = load_fields-Absent rest parents overrides ks n q u.0 in
      let found : Dict.lookup n kwargs ≡ o =
        subst (λ x. Dict.lookup n x ≡ o) e (lookup-with_kwarg_same n o ks absent) in
      p ∙ ap ok (sym found)
  load_fields-lookup (field k g l c rest) parents overrides kwargs {n} h (later i) u =
      let (o, (p, (ks, (q, e)))) = add_kwarg-ok k _ _ kwargs h in
      let same : Dict.lookup n ks ≡ Dict.lookup n kwargs =
        subst (λ x. Dict.lookup n ks ≡ Dict.lookup n x) e
          (sym (lookup-with_kwarg_other k n o ks (InFields-Absent i u.0))) in
      load_fields-lookup rest parents overrides ks q i u.1 ∙ ap ok same

  scalar_field-lookup :
      (parents : List String) (overrides : Entries F) (n : String) (hint : Hint F) (m : Meta F)
      (o : Option (Value F))
      → IsScalar hint
      → load_field env root_prefix n (load_hint env root_prefix hint) m parents overrides ≡ ok o
      → load_scalar_field env root_prefix m n overrides (parents ++ upper n ∷ []) ≡ ok o
  unfolding load_field
  scalar_field-lookup parents overrides n hint m o s p =
      subst (λ x. load_field env root_prefix n x m parents overrides ≡ ok o)
        (load_hint-IsScalar env root_prefix hint s) p

-- If load of a settings class whose fields have distinct names succeeds, it gives an instance of
-- that class, and each field whose type has no settings class in it holds its override if there is
-- one; otherwise what its coercer makes of the first variable set among its path and its aliases,
-- each with the prefix; and otherwise its default.
pub load-Chosen :
    {F : Type 0} (env : Dict String) (root_prefix name : String) (fields : Fields F)
    (parents : List String) (overrides : Entries F) (v : Value F) {n : String} {hint : Hint F}
    {m : Meta F} {d : Option (Value F)}
    → load env root_prefix (settings_class name fields) parents overrides ≡ ok v
    → InFields fields n hint m d
    → IsDistinct fields
    → IsScalar hint
    → (es : Entries F) × ((v ≡ instance_of name es)
        × ((w : Value F) × ((find n es ≡ some w)
              × Chosen env root_prefix n m d (parents ++ upper n ∷ []) overrides w)))
unfolding load
load-Chosen env root_prefix name fields parents overrides v {n} {hint} {m} {d} h i u s =
    let (kwargs, (p, (es, (q, e)))) = built-ok name fields _ v h in
    let (w, (a, b)) = instantiate-find fields kwargs es q i u in
    let k =
      scalar_field-lookup env root_prefix parents overrides n hint m _ s
        (load_fields-lookup env root_prefix fields parents overrides kwargs p i u) in
    (es, (e, (w, (a, load_scalar_field-Chosen env root_prefix n m d _ _ overrides w k b))))
