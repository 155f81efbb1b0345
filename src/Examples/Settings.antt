-- ===== src/Examples/Settings.antt =====
-- Settings of a small program, from variables, overrides and defaults.
use tlo.Prelude.{◌≡◌, refl, text_ne, String, ℕ, none, some, [], ◌∷◌, true, false, text_dec, ite}
use tlo.Prelude.Text.{upper, lower, join}
use tlo.Prelude.Dict
use tlo.Prelude.Dict.{Dict}
use tlo.Errors.{Result, ok, raise, value_error, tlo_error, config_error}
use tlo.Settings.{
  Value, str, number, boolean, instance_of, Entries, end, entry, Meta, no_aliases, aliases,
  no_coercer, coercer, SettingsClass, settings_class, Fields, no_fields, field, generic, no_args,
  settings_arg, none_arg, none_value,
}
use tlo.Settings.Coercers.{identity, to_bool, one_of, to_member, enum_or_original}
use tlo.Settings.Lookup.{
  built, unwrap, find, get_raw_aliases, get_coercer, first_set, with_prefix, coerced, any_key,
  class_name, count_args, count_none, given_or, has_env_for_nested, instantiate, loaded, with_entry,
}
use tlo.Settings.Load.{
  load, add_kwarg, load_field, load_scalar_field, load_from_env, load_candidates, load_nested_env,
  load_nested_field,
}
use tlo.Settings.Tlo.{tlo_settings, initialize_settings, update, set_field}
use tlo.Settings.Environment.{initialize_settings-IsPrefixed}
use tlo.Settings.Outcomes.{NotValueError}
use tlo.Settings.Failures.{load-NotValueError}
use tlo.Settings.Precedence.{Chosen}
use tlo.Settings.Nested.{NestedChosen, load-NestedChosen}
use tlo.Settings.Kwargs.{load-Chosen, here}

-- Numbers are thousandths.
abbrev pub to_float : String → Result (Value ℕ)
to_float s = ite (text_dec s "0.5") (ok (number 500)) (raise value_error)

abbrev tlo_env : Dict String
tlo_env = ("TLO_QUEUE", "SimpleInMemoryQueue") ∷ ("TLO_LOCKER", "app.Locker") ∷ []

initialize_settings-IsPrefixed_example :
    initialize_settings to_float 1000 tlo_env end ≡ initialize_settings to_float 1000 [] end
initialize_settings-IsPrefixed_example =
    initialize_settings-IsPrefixed to_float 1000 tlo_env end (refl, (refl, tt))

abbrev plain_env : Dict String
plain_env = ("QUEUE", "SimpleInMemoryQueue") ∷ ("PANIC_MODE", "Maybe") ∷ []

load-NotValueError_example : NotValueError (load plain_env "" (tlo_settings to_float 1000) [] end)
load-NotValueError_example = load-NotValueError plain_env "" (tlo_settings to_float 1000) [] end

bad_panic_mode :
    load plain_env "" (tlo_settings to_float 1000) [] end ≡ raise (tlo_error config_error)
unfolding load text_dec built add_kwarg load_field unwrap load_scalar_field find load_from_env
    get_raw_aliases get_coercer load_candidates first_set Dict.lookup with_prefix join upper lower
    to_bool to_member coerced enum_or_original identity one_of load_nested_env load_nested_field
    any_key class_name count_args count_none given_or has_env_for_nested instantiate loaded
    with_entry
bad_panic_mode = refl

-- A server with a database; the host of the database has an alias.
abbrev no_meta : Meta ℕ
no_meta = record { env_aliases = no_aliases; env_coercer = no_coercer }

abbrev database_fields : Fields ℕ
database_fields =
    field "host" (generic no_args)
      (record { env_aliases = aliases ("DB_HOST" ∷ []); env_coercer = no_coercer })
      (some (str "localhost")) (field "name" (generic no_args) no_meta none no_fields)

abbrev database : SettingsClass ℕ
database = settings_class "Database" database_fields

abbrev server_fields : Fields ℕ
server_fields =
    field "db" (generic (settings_arg database (none_arg no_args))) no_meta (some none_value) (
      field "debug" (generic no_args)
        (record { env_aliases = no_aliases; env_coercer = coercer to_bool }) (some (boolean false))
        no_fields)

abbrev server : SettingsClass ℕ
server = settings_class "Server" server_fields

abbrev server_env : Dict String
server_env = ("APP_DB_HOST", "db1") ∷ ("APP_DB__NAME", "main") ∷ ("APP_DEBUG", "Yes") ∷ []

abbrev loaded_database : Entries ℕ
loaded_database = entry "host" (str "db1") (entry "name" (str "main") end)

database_from_env :
    load server_env "APP" database ("DB" ∷ []) end ≡ ok (instance_of "Database" loaded_database)
unfolding load text_dec built add_kwarg load_field unwrap load_scalar_field find load_from_env
    get_raw_aliases get_coercer load_candidates first_set Dict.lookup with_prefix join upper lower
    to_bool to_member coerced enum_or_original identity one_of load_nested_env load_nested_field
    any_key class_name count_args count_none given_or has_env_for_nested instantiate loaded
    with_entry
database_from_env = refl

server_from_env :
    load server_env "APP" server [] end
    ≡ ok (
        instance_of "Server"
          (entry "db" (instance_of "Database" loaded_database) (entry "debug" (boolean true) end)))
unfolding load text_dec built add_kwarg load_field unwrap load_scalar_field find load_from_env
    get_raw_aliases get_coercer load_candidates first_set Dict.lookup with_prefix join upper lower
    to_bool to_member coerced enum_or_original identity one_of load_nested_env load_nested_field
    any_key class_name count_args count_none given_or has_env_for_nested instantiate loaded
    with_entry
server_from_env = refl

host_is_not_name : ¬ (Path String "name" "host")
host_is_not_name = text_ne "name" "host" refl

load-Chosen_example :
    (es : Entries ℕ) × ((instance_of "Database" loaded_database ≡ instance_of "Database" es)
      × ((w : Value ℕ) × ((find "host" es ≡ some w)
            × Chosen server_env "APP" "host"
                (record { env_aliases = aliases ("DB_HOST" ∷ []); env_coercer = no_coercer })
                (some (str "localhost"))
                ("DB" ∷ upper "host" ∷ [])
                end
                w)))
load-Chosen_example =
    load-Chosen server_env "APP" "Database" database_fields ("DB" ∷ []) end
      (instance_of "Database" loaded_database) database_from_env here
      ((host_is_not_name, tt), (tt, tt)) tt

load-NestedChosen_example :
    (es : Entries ℕ) × ((instance_of "Server"
          (entry "db" (instance_of "Database" loaded_database) (entry "debug" (boolean true) end))
        ≡ instance_of "Server" es)
      × ((w : Value ℕ) × ((find "db" es ≡ some w)
            × NestedChosen server_env "APP" "Database"
                (load server_env "APP" database)
                (some none_value)
                ("DB" ∷ [])
                none
                w)))
unfolding load class_name count_args count_none unwrap find upper
load-NestedChosen_example =
    load-NestedChosen server_env "APP" "Server" server_fields [] end
      (instance_of "Server"
        (entry "db" (instance_of "Database" loaded_database) (entry "debug" (boolean true) end)))
      "Database" (load server_env "APP" database) server_from_env here
      ((text_ne "debug" "db" refl, tt), (tt, tt)) refl

updated :
    update (("name", str "test") ∷ ("port", number 5) ∷ []) loaded_database
    ≡ entry "host" (str "db1") (entry "name" (str "test") end)
unfolding update set_field text_dec
updated = refl
