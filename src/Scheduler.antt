-- ===== src/Scheduler.antt =====
-- scheduler/scheduler.py, SimpleScheduler: `tick` enqueues each scheduled task that is due.
pub mod Rate
pub mod Due
pub mod Ticks
pub mod Invariant
pub mod CronRate
use tlo.Prelude.{
  String, ℕ, Bool, true, false, Option, none, some, List, [], ◌∷◌, leb, if◌then◌else◌,
}
use tlo.Prelude.Dict
use tlo.Prelude.Dict.{Dict}
use tlo.Errors.{
  Result, ok, raise, Exception, Action, return, ◌>>=◌, ◌>>◌, then_do, tlo_error, config_error,
}
use tlo.Task.{Values, QueuedTask, TaskStateRecord, pending}
use tlo.StateStore
use tlo.Registry.{TaskDef, render_exclusive_key}
use tlo.Registry.Schedules.{Schedule, next_run_after}
use tlo.System.{QueueProtocol, System, now, uuid4, on_store, asks, enqueue}

-- An exception of `next_run_after`: TloConfigError is raised again, and so is any other in panic
-- mode; otherwise the task is skipped.
unfoldable pub schedule_failed : Bool → Exception → Result Bool
schedule_failed panic (tlo_error config_error) = raise (tlo_error config_error)
schedule_failed panic e = if panic then raise e else ok false

-- `_last_run` of a new scheduler.
abbrev pub init : Dict ℕ
init = []

module _ {V : Values} where
  -- Whether a task with this schedule and last run is due.
  unfoldable pub should_run : Bool → ℕ → Schedule V → Option ℕ → Result Bool
  unfolding schedule_failed next_run_after
  should_run panic t schedule none = ok true
  should_run panic t schedule (some last_run) = elim (next_run_after schedule last_run) [
    | ok next_run ↦ ok (leb next_run t)
    | raise e ↦ schedule_failed panic e
  ]

  -- The task that is enqueued, and the record that is made for it.
  abbrev pub new_task : String → String → ℕ → TaskDef V → Option String → QueuedTask V
  new_task id queue_name created d key = record {
    task_name = d.name;
    queue_name = queue_name;
    id = id;
    args = V.no_args;
    kwargs = V.no_kwargs;
    enqueued_at = created;
    eta = none;
    exclusive_key = key;
  }

  abbrev pub new_record : String → QueuedTask V → TaskStateRecord V
  new_record created_by t = record {
    id = t.id;
    name = t.task_name;
    created_at = t.enqueued_at;
    created_by = created_by;
    started_at = none;
    finished_at = none;
    status = pending;
    result = none;
  }

module _ {V : Values} {P : QueueProtocol V} where
  unfoldable pub get_task_last_run : String → System P → Option ℕ
  get_task_last_run name s = Dict.lookup name s.last_run

  unfoldable pub set_task_last_run : String → ℕ → Action (System P) (Unit {0})
  set_task_last_run name t s = (record s { last_run = Dict.insert name t s.last_run }, ok tt)

  unfoldable pub submit_due : ℕ → TaskDef V → Action (System P) (Unit {0})
  unfolding set_task_last_run
  submit_due t d = do
    id ← uuid4
    key ← asks (λ s. render_exclusive_key d V.no_args V.no_kwargs)
    created ← now
    queue_name ← asks (λ s. ok (P.default_queue s.queue))
    let qt = new_task id queue_name created d key
    on_store (StateStore.create (new_record "SimpleScheduler" qt))
    enqueue qt
    set_task_last_run d.name t

  unfoldable pub visit_scheduled : ℕ → TaskDef V → Schedule V → Action (System P) (Unit {0})
  unfolding get_task_last_run
  visit_scheduled t d schedule = do
    due ← asks (λ s. should_run s.settings.panic_mode t schedule (get_task_last_run d.name s))
    if due then submit_due t d else return tt

  abbrev pub visit_schedule : ℕ → TaskDef V → Option (Schedule V) → Action (System P) (Unit {0})
  visit_schedule t d none s = (s, ok tt)
  visit_schedule t d (some schedule) s = visit_scheduled t d schedule s

  -- One round of the loop of `tick`.
  unfoldable pub visit : ℕ → TaskDef V → Action (System P) (Unit {0})
  visit t d = visit_schedule t d d.schedule

  unfoldable pub visit_all : ℕ → List (TaskDef V) → Action (System P) (Unit {0})
  visit_all t [] s = (s, ok tt)
  visit_all t (d ∷ ds) s = then_do (λ _. visit_all t ds) (visit t d s)

  unfoldable pub tick : Action (System P) (Unit {0})
  unfolding visit_all visit
  tick = do t ← now; ds ← asks (λ s. ok (Dict.values s.tasks)); visit_all t ds
