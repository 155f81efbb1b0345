-- ===== src/Settings/Failures.antt =====
-- settings.py, the Loader: which exceptions `load` raises.
use tlo.Prelude.{
  ◌≡◌, String, Bool-cases, Option, none, some, List, All, inl, inr, Option-cases, text_dec,
}
use tlo.Prelude.Dict.{Dict}
use tlo.Errors.{Result, ok, raise, value_error}
use tlo.Settings.{
  Value, none_value, dict, instance_of, Entries, end, entry, Meta, CoercerMeta, no_coercer, coercer,
  bad_coercer, AliasesMeta, no_aliases, aliases, bad_aliases, SettingsClass, settings_class, Fields,
  no_fields, field, Hint, direct, generic, Args, no_args, settings_arg, none_arg, other_arg,
}
use tlo.Settings.Lookup.{get_raw_aliases, first_set, has_env_for_nested, Load, find, get_coercer}
use tlo.Settings.Load.{
  load, load_fields, load_field, load_hint, load_args, load_from_env, load_scalar_field,
  load_nested_field, load_nested_env, load_candidates,
}
use tlo.Settings.Outcomes.{
  NotValueError, ite-NotValueError, coerced-NotValueError, loaded-NotValueError,
  built-NotValueError, add_kwarg-NotValueError, IsSafe, SafeHint, unwrap-Safe,
}

module _ {F : Type 0} where
  module _ (env : Dict String) (root_prefix : String) where
    load_candidates-NotValueError :
        (f : String → Result (Value F)) (names : List String)
        → NotValueError (load_candidates env root_prefix f names)
    unfolding load_candidates
    load_candidates-NotValueError f names = elim (Option-cases (first_set env names)) [
      | inl e ↦ rw (load_candidates, e) tt
      | inr (s, e) ↦ rw (load_candidates, e) (coerced-NotValueError (f s))
    ]

    parsed-NotValueError :
        (a : AliasesMeta) (c : CoercerMeta F) (segments : List String)
        → NotValueError
            (load_from_env env root_prefix (record { env_aliases = a; env_coercer = c }) segments)
    unfolding load_from_env get_raw_aliases get_coercer
    parsed-NotValueError bad_aliases c segments = tt
    parsed-NotValueError no_aliases no_coercer segments = load_candidates-NotValueError _ _
    parsed-NotValueError no_aliases (coercer f) segments = load_candidates-NotValueError _ _
    parsed-NotValueError no_aliases bad_coercer segments = tt
    parsed-NotValueError (aliases names) no_coercer segments = load_candidates-NotValueError _ _
    parsed-NotValueError (aliases names) (coercer f) segments = load_candidates-NotValueError _ _
    parsed-NotValueError (aliases names) bad_coercer segments = tt

    load_from_env-NotValueError :
        (m : Meta F) (segments : List String)
        → NotValueError (load_from_env env root_prefix m segments)
    load_from_env-NotValueError m segments =
        parsed-NotValueError m.env_aliases m.env_coercer segments

    load_scalar_field-NotValueError :
        (m : Meta F) (name : String) (overrides : Entries F) (segments : List String)
        → NotValueError (load_scalar_field env root_prefix m name overrides segments)
    unfolding load_scalar_field
    load_scalar_field-NotValueError m name overrides segments =
        let h : NotValueError (load_from_env env root_prefix m segments) =
          load_from_env-NotValueError m segments in
        elim (Option-cases (find name overrides)) [
          | inl e ↦ rw (load_scalar_field, e) h
          | inr (v, e) ↦ rw (load_scalar_field, e) tt
        ]

    load_nested_env-NotValueError :
        (f : Load F) (segments : List String)
        → ((parents : List String) (overrides : Entries F) → NotValueError (f parents overrides))
        → NotValueError (load_nested_env env root_prefix f segments)
    unfolding load_nested_env
    load_nested_env-NotValueError f segments h =
        elim (Bool-cases (has_env_for_nested env root_prefix segments)) [
          | inl e ↦ rw (load_nested_env, e) (loaded-NotValueError _ (h segments end))
          | inr e ↦ rw (load_nested_env, e) tt
        ]

    given-NotValueError :
        (name class : String) (f : Load F) (segments : List String) (overrides : Entries F)
        (v : Value F)
        → ((parents : List String) (overrides : Entries F) → NotValueError (f parents overrides))
        → find name overrides ≡ some v
        → NotValueError (load_nested_field env root_prefix name (class, f) segments overrides)
    unfolding load_nested_field
    given-NotValueError name class f segments overrides none_value h e =
        rw (load_nested_field, e) tt
    given-NotValueError name class f segments overrides (dict (entry n v es)) h e =
        rw (load_nested_field, e) (loaded-NotValueError _ (h segments (entry n v es)))
    given-NotValueError name class f segments overrides (instance_of c es) h e =
        rw (load_nested_field, e)
          (ite-NotValueError (text_dec c class) _ _ tt (load_nested_env-NotValueError f segments h))
    given-NotValueError name class f segments overrides v h e =
        rw (load_nested_field, e) (load_nested_env-NotValueError f segments h)

    load_nested_field-NotValueError :
        (name : String) (c : String × Load F) (segments : List String) (overrides : Entries F)
        → IsSafe c
        → NotValueError (load_nested_field env root_prefix name c segments overrides)
    unfolding load_nested_field
    load_nested_field-NotValueError name (class, f) segments overrides h =
        elim (Option-cases (find name overrides)) [
          | inl e ↦ rw (load_nested_field, e) (load_nested_env-NotValueError f segments h)
          | inr (v, e) ↦ given-NotValueError name class f segments overrides v h e
        ]

    load_field-NotValueError :
        (name : String) (nested : Result (Option (String × Load F))) (m : Meta F)
        (parents : List String) (overrides : Entries F)
        → SafeHint nested
        → NotValueError (load_field env root_prefix name nested m parents overrides)
    unfolding load_field
    load_field-NotValueError name (ok none) m parents overrides h =
        load_scalar_field-NotValueError m name overrides _
    load_field-NotValueError name (ok (some c)) m parents overrides h =
        load_nested_field-NotValueError name c _ overrides h
    load_field-NotValueError name (raise value_error) m parents overrides h = h
    load_field-NotValueError name (raise e) m parents overrides h = tt

    mutual
      unfolding load

      class_ok :
          (c : SettingsClass F) (parents : List String) (overrides : Entries F)
          → NotValueError (load env root_prefix c parents overrides)
      class_ok (settings_class name members) parents overrides =
          built-NotValueError name members _ (fields_ok members parents overrides)

      fields_ok :
          (fields : Fields F) (parents : List String) (overrides : Entries F)
          → NotValueError (load_fields env root_prefix fields parents overrides)
      fields_ok no_fields parents overrides = tt
      fields_ok (field name hint m default rest) parents overrides =
          add_kwarg-NotValueError name _ _
            (load_field-NotValueError name _ m parents overrides (hint_ok hint))
            (fields_ok rest parents overrides)

      hint_ok : (hint : Hint F) → SafeHint (load_hint env root_prefix hint)
      hint_ok (direct c) = class_ok c
      hint_ok (generic args) = unwrap-Safe _ _ _ (args_ok args)

      args_ok : (args : Args F) → All IsSafe (load_args env root_prefix args)
      args_ok no_args = tt
      args_ok (settings_arg c args) = (class_ok c, args_ok args)
      args_ok (none_arg args) = args_ok args
      args_ok (other_arg args) = args_ok args

-- For settings classes that are data, nested ones included, where a class has no __post_init__ and
-- its defaults are values, load never ends in a ValueError, whatever the environment, the overrides
-- and the coercers: a ValueError of a coercer becomes a TloConfigError.
pub load-NotValueError :
    {F : Type 0} (env : Dict String) (root_prefix : String) (c : SettingsClass F)
    (parents : List String) (overrides : Entries F)
    → NotValueError (load env root_prefix c parents overrides)
load-NotValueError env root_prefix c parents overrides =
    class_ok env root_prefix c parents overrides
