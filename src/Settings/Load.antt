-- ===== src/Settings/Load.antt =====
-- settings.py, the Loader: settings from overrides, environment variables and defaults.
use tlo.Prelude.{String, Option, none, some, List, [], ◌∷◌, ◌++◌, map, text_dec, ite, if◌then◌else◌}
use tlo.Prelude.Text.{upper, join}
use tlo.Prelude.Dict.{Dict}
use tlo.Errors.{Result, ok, raise}
use tlo.Settings.{
  Value, none_value, dict, instance_of, Entries, end, entry, Meta, SettingsClass, settings_class,
  Fields, no_fields, field, Hint, direct, generic, Args, no_args, settings_arg, none_arg, other_arg,
}
use tlo.Settings.Lookup.{
  get_raw_aliases, first_set, with_prefix, has_env_for_nested, Load, find, class_name, count_args,
  count_none, built, loaded, get_coercer, coerced, unwrap,
}

module _ {F : Type 0} where
  -- `init_kwargs[field.name] = value`, unless the value is MISSING.
  unfoldable pub add_kwarg :
      String → Result (Option (Value F)) → Result (Dict (Value F)) → Result (Dict (Value F))
  add_kwarg name (raise e) rest = raise e
  add_kwarg name (ok o) (raise e) = raise e
  add_kwarg name (ok none) (ok kwargs) = ok kwargs
  add_kwarg name (ok (some v)) (ok kwargs) = ok ((name, v) ∷ kwargs)

  module _ (env : Dict String) (root_prefix : String) where
    -- The loop over the candidates, with its coercion; `none` for MISSING.
    unfoldable pub load_candidates :
        (String → Result (Value F)) → List String → Result (Option (Value F))
    load_candidates coerce candidates = elim (first_set env candidates) [
      | some value ↦ coerced (coerce value)
      | none ↦ ok none
    ]

    unfoldable pub load_from_env : Meta F → List String → Result (Option (Value F))
    load_from_env m path_segments = elim (get_raw_aliases m.env_aliases) [
      | raise e ↦ raise e
      | ok names ↦ elim (get_coercer m.env_coercer) [
        | raise e ↦ raise e
        | ok coerce ↦
            load_candidates coerce (map (with_prefix root_prefix) (join "__" path_segments ∷ names))
      ]
    ]

    unfoldable pub load_scalar_field :
        Meta F → String → Entries F → List String → Result (Option (Value F))
    load_scalar_field m field_name overrides current_segments = elim (find field_name overrides) [
      | some v ↦ ok (some v)
      | none ↦ load_from_env m current_segments
    ]

    -- The dict is not given or empty: the environment decides.
    unfoldable pub load_nested_env : Load F → List String → Result (Option (Value F))
    load_nested_env load current_segments =
        if has_env_for_nested env root_prefix current_segments
        then loaded (load current_segments end)
        else ok none

    -- `_load_nested_field`, for a class with its name and loader.
    unfoldable pub load_nested_field :
        String → String × Load F → List String → Entries F → Result (Option (Value F))
    load_nested_field field_name (class, load) current_segments overrides =
        elim (find field_name overrides) [
          | none ↦ load_nested_env load current_segments
          | some none_value ↦ ok (some none_value)
          | some (dict (entry n v es)) ↦ loaded (load current_segments (entry n v es))
          | some (instance_of c es) ↦
              ite (text_dec c class) (ok (some (instance_of c es)))
                (load_nested_env load current_segments)
          | some _ ↦ load_nested_env load current_segments
        ]

    -- `_load_field`, for a field whose type is unwrapped.
    unfoldable pub load_field :
        String
        → Result (Option (String × Load F))
        → Meta F
        → List String
        → Entries F
        → Result (Option (Value F))
    load_field field_name nested m parents overrides =
        let current_segments = parents ++ upper field_name ∷ [] in
        elim nested [
          | raise e ↦ raise e
          | ok (some c) ↦ load_nested_field field_name c current_segments overrides
          | ok none ↦ load_scalar_field m field_name overrides current_segments
        ]

    unfoldable mutual
      pub load : SettingsClass F → List String → Entries F → Result (Value F)
      load (settings_class name members) parents overrides =
          built name members (load_fields members parents overrides)

      -- The loop over the fields.
      pub load_fields : Fields F → List String → Entries F → Result (Dict (Value F))
      load_fields no_fields parents overrides = ok []
      load_fields (field name hint m default rest) parents overrides =
          add_kwarg name (load_field name (load_hint hint) m parents overrides)
            (load_fields rest parents overrides)

      pub load_hint : Hint F → Result (Option (String × Load F))
      load_hint (direct c) = ok (some (class_name c, load c))
      load_hint (generic args) = unwrap (count_args args) (count_none args) (load_args args)

      pub load_args : Args F → List (String × Load F)
      load_args no_args = []
      load_args (settings_arg c args) = (class_name c, load c) ∷ load_args args
      load_args (none_arg args) = load_args args
      load_args (other_arg args) = load_args args
