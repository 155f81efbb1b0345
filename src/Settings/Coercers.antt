-- ===== src/Settings/Coercers.antt =====
-- utils/coercers.py, and the enums of common.py as the lists of their members.
use tlo.Prelude.{String, Bool, true, false, List, [], ◌∷◌, text_dec, ite, if◌then◌else◌}
use tlo.Prelude.Text.{lower}
use tlo.Errors.{Result, ok, raise, value_error}
use tlo.Settings.{Value, str, member, boolean}

-- A StrEnum: its name and its members, whose values are their names.
pub record Enum : Type 0 where
  pub name : String
  pub members : List String

abbrev pub task_registry_enum : Enum
task_registry_enum = record { name = "TaskRegistryEnum"; members = "InMemoryTaskRegistry" ∷ [] }

abbrev pub task_state_store_enum : Enum
task_state_store_enum = record {
  name = "TaskStateStoreEnum";
  members = "InMemoryTaskStateStore" ∷ [];
}

abbrev pub queue_enum : Enum
queue_enum = record { name = "QueueEnum"; members = "SimpleInMemoryQueue" ∷ "MapQueue" ∷ [] }

abbrev pub scheduler_enum : Enum
scheduler_enum = record { name = "SchedulerEnum"; members = "SimpleScheduler" ∷ [] }

abbrev pub executor_enum : Enum
executor_enum = record { name = "ExecutorEnum"; members = "LocalExecutor" ∷ [] }

abbrev pub locker_enum : Enum
locker_enum = record { name = "LockerEnum"; members = "InMemoryLocker" ∷ [] }

abbrev pub stop_behavior_enum : Enum
stop_behavior_enum = record {
  name = "StopBehaviorEnum";
  members = "Drain" ∷ "Cancel" ∷ "Ignore" ∷ [];
}

unfoldable pub one_of : List String → String → Bool
one_of [] s = false
one_of (t ∷ ts) s = ite (text_dec t s) true (one_of ts s)

module _ {F : Type 0} where
  -- `identity`
  unfoldable pub identity : String → Result (Value F)
  identity x = ok (str x)

  -- `enum_cls(value)`
  unfoldable pub to_member : Enum → String → Result (Value F)
  to_member e value = if one_of e.members value then ok (member e.name value) else raise value_error

  unfoldable pub enum_or_original : Enum → String → Result (Value F)
  enum_or_original e value =
      if one_of e.members value then ok (member e.name value) else ok (str value)

  unfoldable pub to_bool : String → Result (Value F)
  to_bool value =
      if one_of ("1" ∷ "true" ∷ "yes" ∷ "on" ∷ []) (lower value)
      then ok (boolean true)
      else if one_of ("0" ∷ "false" ∷ "no" ∷ "off" ∷ []) (lower value)
      then ok (boolean false)
      else raise value_error
