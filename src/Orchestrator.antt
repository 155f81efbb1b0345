-- ===== src/Orchestrator.antt =====
-- orchestrator/orchestrator.py: the methods of `Tlo`, over the parts that it wires together.
pub mod Submit
pub mod Pending
pub mod Invariant
pub mod Served
pub mod Sound
pub mod Kept
pub mod Reachable
use tlo.Prelude.{String, ℕ, Bool, false, Option, none, List, []}
use tlo.Errors.{Result, ok, raise, Action, ◌>>=◌, ◌>>◌}
use tlo.Task.{Values, QueuedTask, Eta, normalise_eta, TaskStateRecord}
use tlo.StateStore
use tlo.Registry
use tlo.Registry.{Hints, render_exclusive_key, get_task}
use tlo.Registry.Schedules.{Interval}
use tlo.Queue.Order.{name_or_default}
use tlo.Scheduler
use tlo.Scheduler.{new_record}
use tlo.Executor.{Calls}
use tlo.Executor
use tlo.Locking
use tlo.System.{
  Settings, QueueProtocol, System, now, uuid4, on_store, on_queue, on_tasks, asks, enqueue,
}

module _ {V : Values} {P : QueueProtocol V} where
  -- What `Tlo.__init__` wires together where each part is the package's own: an empty registry, store
  -- and locker, a scheduler that has run nothing and an executor that does not run. The queue is
  -- built from the settings by its class.
  unfoldable pub initial_system : Settings → P.Queue → (ℕ → ℕ) → (ℕ → String) → System P
  initial_system settings queue times uuids = record {
    settings = settings;
    tasks = Registry.init;
    store = StateStore.init;
    queue = queue;
    locker = Locking.init;
    last_run = Scheduler.init;
    running = false;
    times = times;
    reads = 0;
    uuids = uuids;
    drawn = 0;
  }

  -- `register` has no parameter for the exclusive template and passes none on.
  unfoldable pub register :
      Option String
      → Option Interval
      → Option String
      → Option (V.Custom)
      → Option (V.Extra)
      → V.Func
      → Action (System P) V.Func
  register name interval cron schedule extra func = on_tasks (
      Registry.register
        (record {
          name = name;
          interval = interval;
          cron = cron;
          schedule = schedule;
          extra = extra;
          exclusive = none;
        })
        func)

  -- A task that is not registered is submitted with no exclusive key.
  unfoldable pub exclusive_key_of : String → V.Args → V.Kwargs → System P → Result (Option String)
  unfolding render_exclusive_key
  exclusive_key_of name args kwargs s = elim (get_task name s.tasks) [
    | raise _ ↦ ok none
    | ok d ↦ render_exclusive_key d args kwargs
  ]

  unfoldable pub submit_task :
      String → V.Args → V.Kwargs → Option String → Eta → Action (System P) (Unit {0})
  unfolding exclusive_key_of name_or_default normalise_eta
  submit_task name args kwargs queue_name eta = do
    key ← asks (exclusive_key_of name args kwargs)
    id ← uuid4
    created ← now
    queue ← asks (λ s. ok (name_or_default queue_name s.settings.default_queue))
    let qt : QueuedTask V = record {
      task_name = name;
      queue_name = queue;
      id = id;
      args = args;
      kwargs = kwargs;
      enqueued_at = created;
      eta = normalise_eta eta;
      exclusive_key = key;
    }
    on_store (StateStore.create (new_record "Tlo" qt))
    enqueue qt

  unfoldable pub reschedule_task : String → Eta → Action (System P) (Unit {0})
  reschedule_task id eta = on_queue (P.reschedule id eta)

  unfoldable pub move_task : String → String → Action (System P) (Unit {0})
  move_task id name = on_queue (P.move id name)

  unfoldable pub peek : Option String → Action (System P) (Option (QueuedTask V))
  peek queue_name = do t ← now; on_queue (P.peek queue_name t)

  unfoldable pub bulk_peek : Option String → Option ℕ → Action (System P) (List (QueuedTask V))
  bulk_peek queue_name limit = do t ← now; on_queue (P.bulk_peek queue_name limit t)

  abbrev pub is_running : System P → Bool
  is_running s = Executor.is_running s

  unfoldable pub stop_task : String → Action (System P) (TaskStateRecord V)
  unfolding Executor.stop_task
  stop_task id = Executor.stop_task id

  unfoldable pub get_task_state : String → Action (System P) (TaskStateRecord V)
  unfolding Executor.get_task_state
  get_task_state id = Executor.get_task_state id

  unfoldable pub run_async : Action (System P) (Unit {0})
  unfolding Executor.run_async
  run_async = Executor.run_async

  -- `run` and `stop`, with the fuel of the executor's loops.
  module _ (calls : Calls P) (fuel : ℕ) where
    unfoldable pub run : ℕ → System P → Option (System P × Result (Unit {0}))
    unfolding Executor.run
    run rounds s = Executor.run calls fuel rounds s

    unfoldable pub stop : Bool → System P → Option (System P × Result (Unit {0}))
    unfolding Executor.stop
    stop cancel s = Executor.stop calls fuel cancel s
