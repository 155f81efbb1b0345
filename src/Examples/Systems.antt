-- ===== src/Examples/Systems.antt =====
-- The theorems on the other parts, at concrete states.
use tlo.Prelude.{
  text_ne, Bool, String, ℕ, ◌+◌, ◌<◌, ◌≤◌, ◌≡◌, refl, true, false, none, some, [], ◌∷◌, text_dec,
  if◌then◌else◌,
}
use tlo.Prelude.Dict
use tlo.Errors.{Action, ok, tlo_error, config_error}
use tlo.Task.{QueuedTask, TaskStateRecord, failed, no_eta, timestamp}
use tlo.Locking.{InMemoryLocker, is_locked, contains}
use tlo.StateStore
use tlo.StateStore.Refinement.{creates, call, view, spec, call-spec}
use tlo.Registry.{TaskDef, Hints, get_task, rendered, render_exclusive_key}
use tlo.Registry.Schedules.{
  interval, seconds, pos, interval_schedule, next_run_after, check_positive, microseconds,
}
use tlo.Registry.Registration.{interval_schedule-later}
use tlo.System.{System}
use tlo.System.Queues.{simple_queue}
use tlo.Scheduler.{visit, submit_due}
use tlo.Scheduler.Rate.{submit_due-interval}
use tlo.Executor.{execute, execute_task, run_function}
use tlo.Executor.Execute.{started, running_system, execute_locked, execute_exclusive, released}
use tlo.Orchestrator.{submit_task, exclusive_key_of}
use tlo.Orchestrator.Submit.{submit_task_failed}
use tlo.Orchestrator.Pending.{
  IsSubmitted, submit_task-get_task_state, given, at_timestamp, templated,
}
use tlo.Executor.Outcome.{Left, execute_task-get_task_state}
use tlo.Queue.Simple
use tlo.Examples.{values, system, calls, mail, disk, record_for, report}

abbrev S : Type 0
S = System (simple_queue values)

-- The state in which another executor holds the disk.
abbrev disk_held : S
disk_held = record system { locker = record { keys = "disk" ∷ [] } }

abbrev say : Action InMemoryLocker String
say l = (l, ok "done")

abbrev body : Bool → Action InMemoryLocker String
body acquired = if acquired then say else λ l. (l, ok "busy")

abbrev free : InMemoryLocker
free = record { keys = [] }

call-spec_example :
    ((call (creates (record_for mail)) system.store).1
      ≡ (spec (creates (record_for mail)) (view system.store)).1)
    × (view (call (creates (record_for mail)) system.store).0
        ≡ (spec (creates (record_for mail)) (view system.store)).0)
    × Dict.IsDistinct (call (creates (record_for mail)) system.store).0
unfolding Dict.lookup text_dec
call-spec_example = call-spec (creates (record_for mail)) system.store (refl, (refl, (refl, tt)))

-- Every half minute.
abbrev hints : Hints values
hints = record {
  name = some "sweep";
  interval = some (seconds (pos 30));
  cron = none;
  schedule = none;
  extra = none;
  exclusive = none;
}

abbrev sweep : TaskDef values
sweep = record {
  func = "report";
  name = "sweep";
  extra = tt;
  schedule = some (interval 30_000_000);
  exclusive_template = none;
}

abbrev both : Dict.Dict (TaskDef values)
both = ("report", report) ∷ ("sweep", sweep) ∷ []

interval_schedule-later_example :
    (next_run : ℕ) × (next_run_after {V = values} (interval 30_000_000) 5 ≡ ok next_run)
    × (5 < next_run)
unfolding interval_schedule check_positive microseconds
interval_schedule-later_example =
    interval_schedule-later (seconds (pos 30)) (interval 30_000_000) 5 refl

abbrev visited : S
visited = (submit_due 120 report system).0

submit_due-interval_example :
    (219 < 120 + 100 → visit 219 report visited ≡ (visited, ok tt))
    × (120 + 100 ≤ 219 → visit 219 report visited ≡ submit_due 219 report visited)
unfolding render_exclusive_key rendered Dict.lookup text_dec
submit_due-interval_example =
    submit_due-interval system report 120 100 219 (some "disk") refl refl refl

-- The record of a mail that was started at 3 before.
abbrev restarted : TaskStateRecord values
restarted = record (record_for mail) { started_at = some 3; status = failed }

execute_task-get_task_state_example :
    ((execute_task calls mail restarted system).1 ≡ ok tt)
    × Left calls mail system
        (running_system system restarted)
        restarted
        (record_for mail)
        (started system restarted)
        (ok 4)
        (execute_task calls mail restarted system).0
unfolding run_function get_task Dict.lookup Dict.insert text_dec
execute_task-get_task_state_example =
    execute_task-get_task_state calls mail system (running_system system restarted) restarted
      (record_for mail) (started system restarted) (ok 4) refl refl refl

-- A task that is not registered.
abbrev unknown : QueuedTask values
unknown = record mail { task_name = "unknown" }

execute_locked_example : execute calls disk disk_held ≡ (
  record disk_held {
    reads = 1;
    queue = Simple.enqueue (record disk { eta = some 30 }) disk_held.queue;
  },
  ok tt,
)
unfolding is_locked contains Dict.lookup text_dec
execute_locked_example = execute_locked calls disk disk_held (record_for disk) "disk" refl refl refl

execute_exclusive_example :
    (l : InMemoryLocker) × (is_locked "disk" l ≡ true)
    × (execute calls disk system
        ≡ released "disk"
            (execute_task calls disk (record_for disk) (record system { locker = l })))
    × (is_locked "disk" (execute calls disk system).0.locker ≡ false)
unfolding is_locked contains Dict.lookup text_dec
execute_exclusive_example =
    execute_exclusive calls disk system (record_for disk) "disk" refl refl refl

submit_task-get_task_state_example :
    ((submit_task "report" 7 tt (some "mail") (timestamp 2) system).1 ≡ ok tt)
    × IsSubmitted system "report" 7 tt
        (some "mail")
        (timestamp 2)
        "mail"
        (some 2_000_000)
        (some "disk")
        (submit_task "report" 7 tt (some "mail") (timestamp 2) system).0
unfolding Dict.lookup text_dec
submit_task-get_task_state_example =
    submit_task-get_task_state system "report" 7 tt (some "mail") (timestamp 2) "mail"
      (some 2_000_000) (some "disk") (given (text_ne "mail" "" refl)) at_timestamp
      (templated {d = report} {template = "disk"} refl refl refl) refl

-- A system that draws an id once more.
abbrev redrawn : S
redrawn = record system { uuids = λ n. "a" }

submit_task_failed_example :
    ((record redrawn { drawn = 1; reads = 1 }).queue ≡ redrawn.queue)
    × ((record redrawn { drawn = 1; reads = 1 }).store ≡ redrawn.store)
unfolding submit_task exclusive_key_of get_task render_exclusive_key rendered Dict.lookup text_dec
    StateStore.create
submit_task_failed_example =
    submit_task_failed redrawn "report" 7 tt none no_eta (record redrawn { drawn = 1; reads = 1 })
      (tlo_error config_error) refl
