-- ===== src/Settings/Environment.antt =====
-- README.md and context.py: which variables settings are read from.
use tlo.Prelude.{
  ◌≡◌, refl, text_dec, String, true, false, [], ◌∷◌, none, arith, Option-cases, inl, inr,
}
use tlo.Prelude.Text.{starts_with, upper, join}
use tlo.Prelude.Dict
use tlo.Prelude.Dict.{Dict}
use tlo.Errors.{Result, ok, Result-cases}
use tlo.Settings.{Value, Entries, Meta, Fields, no_fields, field, no_aliases, settings_class}
use tlo.Settings.Tlo.{initialize_settings, tlo_fields}
use tlo.Settings.Scalar.{IsScalar, load_hint-IsScalar}
use tlo.Settings.Lookup.{first_set, with_prefix, find, get_coercer, get_raw_aliases}
use tlo.Settings.Load.{
  load, load_fields, load_field, load_from_env, load_scalar_field, load_candidates,
}

-- The name of each variable begins with `TLO_`.
abbrev pub IsPrefixed : Dict String → Type 0
IsPrefixed [] = Unit
IsPrefixed ((name, value) ∷ env) = (starts_with name "TLO_" ≡ true) × IsPrefixed env

lookup-IsPrefixed :
    (name : String) (env : Dict String)
    → starts_with name "TLO_" ≡ false
    → IsPrefixed env
    → Dict.lookup name env ≡ none
unfolding Dict.lookup
lookup-IsPrefixed name [] off h = refl
lookup-IsPrefixed name ((j, v) ∷ env) off h = ground (arith, lookup-IsPrefixed name env off h.1)

primary_name : (name : String) → with_prefix "" (join "__" (name ∷ [])) ≡ name
unfolding with_prefix join text_dec
primary_name name = refl

module _ {F : Type 0} where
  -- Scalar fields without aliases, whose own names do not begin with `TLO_`.
  abbrev IsPlain : Fields F → Type 0
  IsPlain no_fields = Unit
  IsPlain (field name hint m default rest) =
      IsScalar hint
      × ((m.env_aliases ≡ no_aliases) × ((starts_with (upper name) "TLO_" ≡ false) × IsPlain rest))

  module _ (env : Dict String) (h : IsPrefixed env) where
    load_from_env-IsPrefixed :
        (m : Meta F) (name : String)
        → m.env_aliases ≡ no_aliases
        → starts_with name "TLO_" ≡ false
        → load_from_env env "" m (name ∷ []) ≡ load_from_env [] "" m (name ∷ [])
    unfolding load_from_env get_raw_aliases load_candidates first_set Dict.lookup
    load_from_env-IsPrefixed m name a off =
        let e : Dict.lookup (with_prefix "" (join "__" (name ∷ []))) env ≡ none =
          rw (primary_name name) (lookup-IsPrefixed name env off h) in
        elim (Result-cases (get_coercer m.env_coercer)) [
          | inl (f, c) ↦ rw (load_from_env, a, c, load_candidates, first_set, e) refl
          | inr (x, c) ↦ rw (load_from_env, a, c) refl
        ]

    load_field-IsPrefixed :
        (m : Meta F) (name : String) (settings : Entries F)
        → m.env_aliases ≡ no_aliases
        → starts_with (upper name) "TLO_" ≡ false
        → load_field env "" name (ok none) m [] settings
          ≡ load_field [] "" name (ok none) m [] settings
    unfolding load_field load_scalar_field
    load_field-IsPrefixed m name settings a off = elim (Option-cases (find name settings)) [
      | inl e ↦
          rw (load_field, load_scalar_field, e, load_from_env-IsPrefixed m (upper name) a off) refl
      | inr (v, e) ↦ rw (load_field, load_scalar_field, e) refl
    ]

    load_fields-IsPrefixed :
        (fields : Fields F) (settings : Entries F)
        → IsPlain fields
        → load_fields env "" fields [] settings ≡ load_fields [] "" fields [] settings
    unfolding load
    load_fields-IsPrefixed no_fields settings p = refl
    load_fields-IsPrefixed (field name hint m default rest) settings (s, (a, (off, ps))) =
        rw
          (
            load_hint-IsScalar env "" hint s,
            load_hint-IsScalar [] "" hint s,
            load_field-IsPrefixed m name settings a off,
            load_fields-IsPrefixed rest settings ps,
          )
          refl

    load-IsPrefixed :
        (name : String) (fields : Fields F) (settings : Entries F)
        → IsPlain fields
        → load env "" (settings_class name fields) [] settings
          ≡ load [] "" (settings_class name fields) [] settings
    unfolding load
    load-IsPrefixed name fields settings p = rw (load_fields-IsPrefixed fields settings p) refl

-- Where the name of each variable begins with TLO_, initialize_settings gives what it gives with no
-- variables at all: the same settings or the same exception, whatever is passed to it.
pub initialize_settings-IsPrefixed :
    {F : Type 0} (to_float : String → Result (Value F)) (one : F) (env : Dict String)
    (settings : Entries F)
    → IsPrefixed env
    → initialize_settings to_float one env settings ≡ initialize_settings to_float one [] settings
unfolding initialize_settings upper
initialize_settings-IsPrefixed to_float one env settings h =
    load-IsPrefixed env h "TloSettings" (tlo_fields to_float one) settings (
      tt,
      (
        refl,
        (
          refl,
          (
            tt,
            (
              refl,
              (
                refl,
                (
                  tt,
                  (
                    refl,
                    (
                      refl,
                      (
                        tt,
                        (
                          refl,
                          (
                            refl,
                            (
                              tt,
                              (
                                refl,
                                (
                                  refl,
                                  (
                                    tt,
                                    (
                                      refl,
                                      (
                                        refl,
                                        (
                                          tt,
                                          (
                                            refl,
                                            (
                                              refl,
                                              (
                                                tt,
                                                (
                                                  refl,
                                                  (
                                                    refl,
                                                    (tt, (refl, (refl, (tt, (refl, (refl, tt)))))),
                                                  ),
                                                ),
                                              ),
                                            ),
                                          ),
                                        ),
                                      ),
                                    ),
                                  ),
                                ),
                              ),
                            ),
                          ),
                        ),
                      ),
                    ),
                  ),
                ),
              ),
            ),
          ),
        ),
      ),
    )
