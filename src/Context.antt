-- ===== src/Context.antt =====
-- context.py and Tlo.__init__ of orchestrator.py: the parts of the runtime, built from the settings.
use Prim.Native.Char.{code}
use tlo.Prelude.{
  String, ◌==◌, Bool, true, false, ◌||◌, if◌then◌else◌, Option, none, some, List, [], ◌∷◌, text_dec,
  ite,
}
use tlo.Prelude.Dict
use tlo.Prelude.Dict.{Dict}
use tlo.Errors.{
  Result, ok, raise, tlo_error, config_error, value_error, assertion_error, attribute_error,
}
use tlo.Protocols.{
  task_registry_protocol, task_state_store_protocol, queue_protocol, scheduler_protocol,
  executor_protocol, locker_protocol,
}
use tlo.Settings.{Value, str, member, instance_of, Entries}
use tlo.Settings.Coercers.{
  Enum, task_registry_enum, task_state_store_enum, queue_enum, scheduler_enum, executor_enum,
  locker_enum,
}
use tlo.Settings.Lookup.{find}
use tlo.Settings.Tlo.{initialize_settings}
pub mod Paths
pub mod Wiring
pub mod Parts

-- A call whose result the next one takes.
unfoldable pub and_then : {A B : Type 0} → Result A → (A → Result B) → Result B
and_then (ok a) f = f a
and_then (raise e) f = raise e

-- utils/__init__.py: the decorator that registers a class under a member's name, and gives it back.
unfoldable pub register_implementation : {A : Type 0} → Dict A → String → A → Dict A × A
register_implementation registry key item = (Dict.insert key item registry, item)

unfoldable pub make_specific_register_func : {A : Type 0} → Dict A → String → A → Dict A × A
make_specific_register_func registry_map enum_key = register_implementation registry_map enum_key

-- `path.rsplit(".", 1)`; nothing where it has one part.
unfoldable pub rsplit : String → Option (String × String)
rsplit String.[] = none
rsplit (String.◌∷◌ c s) = elim (rsplit s) [
  | some (owner, klass) ↦ some (String.◌∷◌ c owner, klass)
  | none ↦ if code c == 46 then some ("", s) else none
]

-- One kind of part: the implementations that are registered, what a class of a module is,
-- and what a check against the protocol asks of an object: whether its class inherits from the
-- protocol, and which members it has, where a method that is `None` is none. Modules, classes and
-- their constructors are parameters.
pub record Kind (M A I : Type 0) : Type 0 where
  pub impl_registry : Dict (A → Result I)
  pub getattr : M → String → Result (A → Result I)
  pub inherits : I → Bool
  pub has_member : I → String → Bool

module _ {M A I : Type 0} (kind : Kind M A I) where
  -- `isinstance(result, expected_type)`
  unfoldable pub has_members : I → List String → Bool
  has_members result [] = true
  has_members result (m ∷ ms) =
      let others = has_members result ms in if kind.has_member result m then others else false

  unfoldable pub checked : List String → I → Result I
  unfolding has_members
  checked expected_type result =
      if kind.inherits result || has_members result expected_type
      then ok result
      else raise (tlo_error config_error)

module _ {M A I : Type 0} (import_module : String → Result M) (kind : Kind M A I) where
  -- The class of a module is called.
  unfoldable pub imported : List String → String → String → A → Result I
  imported expected_type owner klass kwargs = and_then (import_module owner) (λ module_obj.
      and_then (kind.getattr module_obj klass)
        (λ class. and_then (class kwargs) (checked kind expected_type)))

  unfoldable pub initialize_by_py_path : List String → String → A → Result I
  initialize_by_py_path expected_type py_path kwargs = elim (rsplit py_path) [
    | none ↦ raise value_error
    | some (owner, klass) ↦ imported expected_type owner klass kwargs
  ]

  unfoldable pub registered : String → A → Result I
  registered name kwargs = elim (Dict.lookup name kind.impl_registry) [
    | some class ↦ class kwargs
    | none ↦ raise assertion_error
  ]

  -- `_initialize`: a member of another enum is a text.
  unfoldable pub initialize : {F : Type 0} → List String → Enum → Value F → A → Result I
  initialize expected_type enum_type (member e name) kwargs =
      ite (text_dec e enum_type.name) (registered name kwargs)
        (initialize_by_py_path expected_type name kwargs)
  initialize expected_type enum_type (str py_path) kwargs =
      initialize_by_py_path expected_type py_path kwargs
  initialize expected_type enum_type v kwargs = raise assertion_error

  -- `_initialize(settings.name, ...)`
  unfoldable pub initialize_setting :
      {F : Type 0} → List String → Enum → String → Value F → A → Result I
  initialize_setting expected_type enum_type name (instance_of c es) kwargs = elim (find name es) [
    | some v ↦ initialize expected_type enum_type v kwargs
    | none ↦ raise attribute_error
  ]
  initialize_setting expected_type enum_type name v kwargs = raise attribute_error

-- The kinds of parts, each with what its constructors take.
pub record Kinds (F M R S Q L C E : Type 0) : Type 0 where
  pub task_registries : Kind M (Unit {0}) R
  pub task_state_stores : Kind M (Unit {0}) S
  pub queues : Kind M (Value F) Q
  pub lockers : Kind M (Unit {0}) L
  pub schedulers : Kind M (R × (Q × (S × Value F))) C
  pub executors : Kind M (R × (S × (Q × (C × (L × Value F))))) E

pub record Tlo (F R S Q L C E : Type 0) : Type 0 where
  pub settings : Value F
  pub task_registry : R
  pub task_state_store : S
  pub queue : Q
  pub locker : L
  pub scheduler : C
  pub executor : E

module _ {F M R S Q L C E : Type 0} (import_module : String → Result M)
    (kinds : Kinds F M R S Q L C E) where
  unfoldable pub initialize_task_registry : Value F → Result R
  initialize_task_registry settings =
      initialize_setting import_module kinds.task_registries task_registry_protocol
        task_registry_enum "task_registry" settings tt

  unfoldable pub initialize_task_state_store : Value F → Result S
  initialize_task_state_store settings =
      initialize_setting import_module kinds.task_state_stores task_state_store_protocol
        task_state_store_enum "task_state_store" settings tt

  unfoldable pub initialize_queue : Value F → Result Q
  initialize_queue settings =
      initialize_setting import_module kinds.queues queue_protocol queue_enum "queue" settings
        settings

  unfoldable pub initialize_locker : Value F → Result L
  initialize_locker settings =
      initialize_setting import_module kinds.lockers locker_protocol locker_enum "locker" settings
        tt

  unfoldable pub initialize_scheduler : Value F → R → Q → S → Result C
  initialize_scheduler settings registry queue state_store =
      initialize_setting import_module kinds.schedulers scheduler_protocol scheduler_enum
        "scheduler" settings (registry, (queue, (state_store, settings)))

  unfoldable pub initialize_executor : Value F → R → S → Q → C → L → Result E
  initialize_executor settings registry state_store queue scheduler locker =
      initialize_setting import_module kinds.executors executor_protocol executor_enum "executor"
        settings (registry, (state_store, (queue, (scheduler, (locker, settings)))))

  -- `Tlo.__init__`, after the settings are loaded.
  unfoldable pub wired : Value F → Result (Tlo F R S Q L C E)
  wired settings = and_then (initialize_task_registry settings) (λ registry.
      and_then (initialize_task_state_store settings) (λ store.
        and_then (initialize_queue settings) (λ queue.
          and_then (initialize_locker settings) (λ locker.
            and_then (initialize_scheduler settings registry queue store) (λ scheduler.
              and_then (initialize_executor settings registry store queue scheduler locker)
                (λ executor. ok (record {
                  settings = settings;
                  task_registry = registry;
                  task_state_store = store;
                  queue = queue;
                  locker = locker;
                  scheduler = scheduler;
                  executor = executor;
                })))))))

  -- `Tlo.__init__`, from the environment and the keyword arguments.
  unfoldable pub new_tlo :
      (String → Result (Value F)) → F → Dict String → Entries F → Result (Tlo F R S Q L C E)
  new_tlo to_float one env settings = and_then (initialize_settings to_float one env settings) wired
