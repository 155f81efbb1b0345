-- ===== src/Settings/Lookup.antt =====
-- settings.py, what the Loader looks up: names of the environment, metadata, types and defaults.
use tlo.Prelude.{
  String, ℕ, suc, ◌+◌, Bool, false, ◌||◌, Option, none, some, List, [], ◌∷◌, text_dec, ite,
  if◌then◌else◌, ◌==◌, ltb, length,
}
use tlo.Prelude.Text.{join, starts_with, ◌<>◌}
use tlo.Prelude.Dict
use tlo.Prelude.Dict.{Dict}
use tlo.Errors.{Result, ok, raise, tlo_error, config_error, type_error, value_error}
use tlo.Settings.Coercers.{identity}
use tlo.Settings.{
  Value, instance_of, Entries, end, entry, AliasesMeta, no_aliases, aliases, bad_aliases,
  CoercerMeta, no_coercer, coercer, bad_coercer, SettingsClass, settings_class, Fields, no_fields,
  field, Args, no_args, settings_arg, none_arg, other_arg,
}

-- `any(key.startswith(base) for key in os.environ)`
unfoldable pub any_key : String → Dict String → Bool
any_key base [] = false
any_key base ((key, value) ∷ env) = starts_with key base || any_key base env

unfoldable pub get_raw_aliases : AliasesMeta → Result (List String)
get_raw_aliases no_aliases = ok []
get_raw_aliases (aliases names) = ok names
get_raw_aliases bad_aliases = raise type_error

-- The first of the names that is set in the environment.
unfoldable pub first_set : Dict String → List String → Option String
first_set env [] = none
first_set env (name ∷ names) = elim (Dict.lookup name env) [
  | some value ↦ some value
  | none ↦ first_set env names
]

unfoldable pub with_prefix : String → String → String
with_prefix root_prefix name = ite (text_dec root_prefix "") name (root_prefix <> ("_" <> name))

unfoldable pub has_env_for_nested : Dict String → String → List String → Bool
has_env_for_nested env root_prefix path_segments =
    any_key (with_prefix root_prefix (join "__" path_segments <> "__")) env

-- A loader of a settings class, from the segments of its path and the overrides.
abbrev pub Load : Type 0 → Type 0
Load F = List String → Entries F → Result (Value F)

module _ {F : Type 0} where
  unfoldable pub find : String → Entries F → Option (Value F)
  find name end = none
  find name (entry n v es) = ite (text_dec n name) (some v) (find name es)

  unfoldable pub class_name : SettingsClass F → String
  class_name (settings_class name _) = name

  unfoldable pub count_args : Args F → ℕ
  count_args no_args = 0
  count_args (settings_arg c args) = suc (count_args args)
  count_args (none_arg args) = suc (count_args args)
  count_args (other_arg args) = suc (count_args args)

  unfoldable pub count_none : Args F → ℕ
  count_none no_args = 0
  count_none (settings_arg c args) = count_none args
  count_none (none_arg args) = suc (count_none args)
  count_none (other_arg args) = count_none args

  unfoldable pub loaded : Result (Value F) → Result (Option (Value F))
  loaded (ok v) = ok (some v)
  loaded (raise e) = raise e

  unfoldable pub get_coercer : CoercerMeta F → Result (String → Result (Value F))
  get_coercer no_coercer = ok identity
  get_coercer (coercer f) = ok f
  get_coercer bad_coercer = raise type_error

  -- `except ValueError`
  unfoldable pub coerced : Result (Value F) → Result (Option (Value F))
  coerced (ok v) = ok (some v)
  coerced (raise value_error) = raise (tlo_error config_error)
  coerced (raise e) = raise e

  -- A field's argument, or else its default; TypeError if it has neither.
  unfoldable pub given_or : Option (Value F) → Option (Value F) → Result (Value F)
  given_or (some v) default = ok v
  given_or none (some v) = ok v
  given_or none none = raise type_error

  unfoldable pub with_entry : String → Result (Value F) → Result (Entries F) → Result (Entries F)
  with_entry name (ok v) (ok es) = ok (entry name v es)
  with_entry name (ok v) (raise e) = raise e
  with_entry name (raise e) _ = raise e

  -- `settings_cls(**init_kwargs)` of a class with no `__post_init__`: a field takes its argument or its
  -- default.
  unfoldable pub instantiate : Fields F → Dict (Value F) → Result (Entries F)
  instantiate no_fields kwargs = ok end
  instantiate (field name hint m default rest) kwargs =
      with_entry name (given_or (Dict.lookup name kwargs) default) (instantiate rest kwargs)

  unfoldable pub built : String → Fields F → Result (Dict (Value F)) → Result (Value F)
  built name members (raise e) = raise e
  built name members (ok kwargs) = elim (instantiate members kwargs) [
    | ok es ↦ ok (instance_of name es)
    | raise e ↦ raise e
  ]

  -- `_unwrap_nested_settings_type`, from the number of arguments, that of None among them, and the
  -- settings classes among them; nothing if there is none, as `_has_settings_type_hint` tests.
  unfoldable pub unwrap : ℕ → ℕ → List (String × Load F) → Result (Option (String × Load F))
  unwrap total nones [] = ok none
  unwrap total nones (first ∷ others) =
      let found = length others + 1 in
      if ltb 2 total
      then raise type_error
      else if ltb 1 found
      then raise type_error
      else if found == total
      then ok (some first)
      else if found + nones == total
      then ok (some first)
      else raise type_error
