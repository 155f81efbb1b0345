-- ===== src/Registry.antt =====
-- task_registry/: task definitions, their schedules, and the registry that holds them by name.
pub mod Schedules
pub mod Registration
use tlo.Prelude.{
  String, ℕ, Bool, true, false, Option, none, some, List, [], map, ltb, ◌+◌, if◌then◌else◌,
}
use tlo.Prelude.Dict
use tlo.Prelude.Dict.{Dict}
use tlo.Errors.{
  Result, ok, raise, Exception, Action, tlo_error, key_error, config_error,
  invalid_registration_error, task_lookup_error, ◌>>=◌,
}
use tlo.Task.{Values}
use tlo.Queue.Order.{name_or_default}
use Schedules.{Schedule, custom, Interval, interval_schedule, cron_schedule}

pub record TaskDef (V : Values) : Type 0 where
  pub func : V.Func
  pub name : String
  pub extra : V.Extra
  pub schedule : Option (Schedule V)
  pub exclusive_template : Option String

-- The definitions of a new registry, by their names.
abbrev pub init : {V : Values} → Dict (TaskDef V)
init = []

-- `except KeyError`: only a missing keyword becomes the package's error.
unfoldable pub rendered : Result String → Result (Option String)
rendered (ok key) = ok (some key)
rendered (raise key_error) = raise (tlo_error config_error)
rendered (raise e) = raise e

-- What `register` is called with, but for the function.
pub record Hints (V : Values) : Type 0 where
  pub name : Option String
  pub interval : Option Interval
  pub cron : Option String
  pub schedule : Option (V.Custom)
  pub extra : Option (V.Extra)
  pub exclusive : Option String

unfoldable pub is_given : {A : Type 0} → Option A → ℕ
is_given none = 0
is_given (some _) = 1

module _ {V : Values} where
  unfoldable pub render_exclusive_key : TaskDef V → V.Args → V.Kwargs → Result (Option String)
  unfolding rendered
  render_exclusive_key d args kwargs = elim d.exclusive_template [
    | none ↦ ok none
    | some template ↦ rendered (V.vformat template args kwargs)
  ]

  -- The explicit schedule, or else one from the interval, or else one from the cron expression.
  unfoldable pub final_schedule : Hints V → Result (Option (Schedule V))
  final_schedule h = elim h.schedule [
    | some s ↦ ok (some (custom s))
    | none ↦ elim h.interval [
      | some i ↦ elim (interval_schedule i) [ ok s ↦ ok (some s) | raise e ↦ raise e ]
      | none ↦ elim h.cron [
        | some text ↦ elim (cron_schedule text) [ ok s ↦ ok (some s) | raise e ↦ raise e ]
        | none ↦ ok none
      ]
    ]
  ]

  -- `InMemoryTaskRegistry._register`
  unfoldable pub store_task : TaskDef V → Action (Dict (TaskDef V)) (Unit {0})
  store_task d tasks = elim (Dict.lookup d.name tasks) [
    | some _ ↦ (tasks, raise (tlo_error invalid_registration_error))
    | none ↦ (Dict.insert d.name d tasks, ok tt)
  ]

  -- The decorator that `register` returns, at a function.
  unfoldable pub register : Hints V → V.Func → Action (Dict (TaskDef V)) V.Func
  unfolding final_schedule store_task is_given name_or_default
  register h func tasks =
      let task_name = name_or_default h.name (V.func_name func) in
      if ltb 1 (is_given h.interval + is_given h.cron + is_given h.schedule)
      then (tasks, raise (tlo_error invalid_registration_error))
      else elim (final_schedule h) [
        | raise e ↦ (tasks, raise e)
        | ok s ↦
            (store_task (record {
              func = func;
              name = task_name;
              extra = elim h.extra [ some e ↦ e | none ↦ V.no_extra ];
              schedule = s;
              exclusive_template = h.exclusive;
            })
                >>= λ _ after. (after, ok func))
              tasks
      ]

  unfoldable pub get_task : String → Dict (TaskDef V) → Result (TaskDef V)
  get_task name tasks = elim (Dict.lookup name tasks) [
    | some d ↦ ok d
    | none ↦ raise (tlo_error (task_lookup_error name))
  ]

  unfoldable pub list_tasks : Dict (TaskDef V) → List (TaskDef V)
  list_tasks tasks = Dict.values tasks

  unfoldable pub list_task_names : Dict (TaskDef V) → List String
  list_task_names tasks = Dict.keys tasks

  unfoldable pub contains_task : String → Dict (TaskDef V) → Bool
  contains_task name tasks = elim (Dict.lookup name tasks) [ some _ ↦ true | none ↦ false ]
