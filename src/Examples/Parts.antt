-- ===== src/Examples/Parts.antt =====
-- Parts of a small program, built from its settings: each part is a text.
use tlo.Prelude.{◌≡◌, refl, String, ◌⊎◌, true, false, [], ◌∷◌, text_dec, ite}
use tlo.Prelude.Text.{◌<>◌, join, upper, lower}
use tlo.Prelude.Dict
use tlo.Errors.{Result, ok, raise, value_error, import_error, attribute_error}
use tlo.Protocols.{locker_protocol}
use tlo.Settings.{Value, str, member, number, boolean, instance_of, Entries, end, entry}
use tlo.Settings.Coercers.{locker_enum, to_bool, to_member, enum_or_original, identity, one_of}
use tlo.Settings.Lookup.{
  built, unwrap, find, get_raw_aliases, get_coercer, first_set, with_prefix, coerced, any_key,
  class_name, count_args, count_none, given_or, has_env_for_nested, instantiate, loaded, with_entry,
}
use tlo.Settings.Load.{
  load, add_kwarg, load_field, load_scalar_field, load_from_env, load_candidates, load_nested_env,
  load_nested_field,
}
use tlo.Settings.Tlo.{initialize_settings}
use tlo.Context.{
  make_specific_register_func, register_implementation, Kind, Kinds, Tlo, and_then, rsplit, checked,
  has_members, imported, registered, initialize, initialize_by_py_path, initialize_setting,
  initialize_task_registry, initialize_task_state_store, initialize_queue, initialize_locker,
  initialize_scheduler, initialize_executor, wired, new_tlo,
}
use tlo.Context.Paths.{NoDot, initialize_by_py_path-Split}
use tlo.Context.Wiring.{IsImplementation, initialize_setting-IsImplementation}
use tlo.Context.Parts.{IsBuilt, new_tlo-IsBuilt}

-- One module, whose name is its content, with one class.
abbrev import_module : String → Result String
import_module name = ite (text_dec name "app.parts") (ok name) (raise import_error)

abbrev kind : (A : Type 0) → String → Kind String A String
kind A name = record {
  impl_registry = (make_specific_register_func [] name (λ a. ok name)).0;
  getattr =
      λ m klass. ite (text_dec klass "Part") (ok (λ a. ok (m <> klass))) (raise attribute_error);
  inherits = λ r. false;
  has_member = λ r m. ite (text_dec m "settings") false true;
}

abbrev kinds : Kinds String String String String String String String String
kinds = record {
  task_registries = kind _ "InMemoryTaskRegistry";
  task_state_stores = kind _ "InMemoryTaskStateStore";
  queues = kind _ "SimpleInMemoryQueue";
  lockers = kind _ "InMemoryLocker";
  schedulers = kind _ "SimpleScheduler";
  executors = kind _ "LocalExecutor";
}

-- The keyword arguments name a locker of the module, a variable the queue.
abbrev kwargs : Entries String
kwargs = entry "locker" (str "app.parts.Part") end

abbrev queue_env : Dict.Dict String
queue_env = ("QUEUE", "SimpleInMemoryQueue") ∷ []

abbrev to_float : String → Result (Value String)
to_float s = ok (number s)

abbrev settings : Value String
settings = instance_of "TloSettings" (
    entry "task_registry" (member "TaskRegistryEnum" "InMemoryTaskRegistry") (
      entry "task_state_store" (member "TaskStateStoreEnum" "InMemoryTaskStateStore") (
        entry "queue" (member "QueueEnum" "SimpleInMemoryQueue") (
          entry "scheduler" (member "SchedulerEnum" "SimpleScheduler") (
            entry "executor" (member "ExecutorEnum" "LocalExecutor") (
              entry "locker" (str "app.parts.Part") (
                entry "tick_interval" (number "1.0") (
                  entry "default_queue" (str "default") (
                    entry "stop_behavior" (member "StopBehaviorEnum" "Drain")
                      (entry "panic_mode" (boolean false) end))))))))))

abbrev runtime : Tlo String String String String String String String
runtime = record {
  settings = settings;
  task_registry = "InMemoryTaskRegistry";
  task_state_store = "InMemoryTaskStateStore";
  queue = "SimpleInMemoryQueue";
  locker = "app.partsPart";
  scheduler = "SimpleScheduler";
  executor = "LocalExecutor";
}

loaded_settings : initialize_settings to_float "1.0" queue_env kwargs ≡ ok settings
unfolding initialize_settings load text_dec built add_kwarg load_field unwrap load_scalar_field find
    load_from_env get_raw_aliases get_coercer load_candidates first_set Dict.lookup with_prefix join
    upper lower to_bool to_member coerced enum_or_original identity one_of load_nested_env
    load_nested_field any_key class_name count_args count_none given_or has_env_for_nested
    instantiate loaded with_entry
loaded_settings = refl

runtime_from_settings : wired import_module kinds settings ≡ ok runtime
unfolding make_specific_register_func register_implementation Dict.insert wired and_then
    initialize_task_registry initialize_task_state_store initialize_queue initialize_locker
    initialize_scheduler initialize_executor initialize_setting initialize registered
    initialize_by_py_path imported checked has_members rsplit find text_dec Dict.lookup
runtime_from_settings = refl

built_runtime : new_tlo import_module kinds to_float "1.0" queue_env kwargs ≡ ok runtime
unfolding new_tlo and_then
built_runtime = rw loaded_settings runtime_from_settings

new_tlo-IsBuilt_example :
    (initialize_settings to_float "1.0" queue_env kwargs ≡ ok settings)
    × IsBuilt import_module kinds runtime
new_tlo-IsBuilt_example =
    new_tlo-IsBuilt import_module kinds to_float "1.0" queue_env kwargs runtime built_runtime

locker_setting :
    initialize_setting import_module kinds.lockers locker_protocol locker_enum "locker" settings tt
    ≡ ok "app.partsPart"
unfolding make_specific_register_func register_implementation Dict.insert initialize_setting
    initialize registered initialize_by_py_path imported checked has_members and_then rsplit find
    text_dec Dict.lookup
locker_setting = refl

initialize_setting-IsImplementation_example :
    IsImplementation import_module kinds.lockers locker_protocol tt "app.partsPart"
initialize_setting-IsImplementation_example =
    initialize_setting-IsImplementation import_module kinds.lockers locker_protocol locker_enum
      "locker" settings tt "app.partsPart" locker_setting

initialize_by_py_path-Split_example :
    (NoDot "app.parts.Part"
      × (initialize_by_py_path import_module kinds.lockers locker_protocol "app.parts.Part" tt
          ≡ raise value_error))
    ⊎ ((owner : String) × ((klass : String) × (Path String "app.parts.Part"
              (owner <> ("." <> klass))
            × (NoDot klass
                × (initialize_by_py_path import_module kinds.lockers locker_protocol
                      "app.parts.Part" tt
                    ≡ imported import_module kinds.lockers locker_protocol owner klass tt)))))
initialize_by_py_path-Split_example =
    initialize_by_py_path-Split import_module kinds.lockers locker_protocol "app.parts.Part" tt
