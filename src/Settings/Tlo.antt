-- ===== src/Settings/Tlo.antt =====
-- settings.py, TloSettings: its fields with their defaults and coercers, and `update`.
use tlo.Prelude.{String, false, some, [], ◌∷◌, text_dec, ite}
use tlo.Prelude.Dict.{Dict}
use tlo.Errors.{Result}
use tlo.Settings.{
  Value, str, member, number, boolean, Entries, end, entry, no_aliases, CoercerMeta, no_coercer,
  coercer, SettingsClass, settings_class, Fields, no_fields, field, Hint, generic, no_args,
  other_arg,
}
use tlo.Settings.Coercers.{
  Enum, task_registry_enum, task_state_store_enum, queue_enum, scheduler_enum, executor_enum,
  locker_enum, stop_behavior_enum, to_member, enum_or_original, to_bool,
}
use tlo.Settings.Load.{load}

module _ {F : Type 0} where
  -- A field whose metadata has a coercer at most.
  abbrev plain : String → Hint F → CoercerMeta F → Value F → Fields F → Fields F
  plain name hint c default =
      field name hint (record { env_aliases = no_aliases; env_coercer = c }) (some default)

  abbrev enum_field : String → Enum → String → Fields F → Fields F
  enum_field name e default =
      plain name (generic (other_arg (other_arg no_args))) (coercer (enum_or_original e))
        (member e.name default)

  -- `self.k = v` for one field; a name that is no field is passed over.
  unfoldable pub set_field : String → Value F → Entries F → Entries F
  set_field k v end = end
  set_field k v (entry n w es) = ite (text_dec n k) (entry n v es) (entry n w (set_field k v es))

  unfoldable pub update : Dict (Value F) → Entries F → Entries F
  update [] self = self
  update ((k, v) ∷ settings) self = update settings (set_field k v self)

-- `float`, on texts and for the default interval, is a parameter.
module _ {F : Type 0} (to_float : String → Result (Value F)) (one : F) where
  abbrev pub tlo_fields : Fields F
  tlo_fields =
      (enum_field "task_registry" task_registry_enum "InMemoryTaskRegistry" (
        enum_field "task_state_store" task_state_store_enum "InMemoryTaskStateStore" (
          enum_field "queue" queue_enum "MapQueue" (
            enum_field "scheduler" scheduler_enum "SimpleScheduler" (
              enum_field "executor" executor_enum "LocalExecutor" (
                enum_field "locker" locker_enum "InMemoryLocker" (
                  plain "tick_interval" (generic no_args) (coercer to_float) (number one) (
                    plain "default_queue" (generic no_args) no_coercer (str "default") (
                      plain "stop_behavior" (generic no_args)
                        (coercer (to_member stop_behavior_enum))
                        (member stop_behavior_enum.name "Drain")
                        (plain "panic_mode" (generic no_args) (coercer to_bool) (boolean false)
                          no_fields))))))))))

  abbrev pub tlo_settings : SettingsClass F
  tlo_settings = settings_class "TloSettings" tlo_fields

  -- context.py: no prefix is applied.
  unfoldable pub initialize_settings : Dict String → Entries F → Result (Value F)
  initialize_settings env settings = load env "" tlo_settings [] settings
