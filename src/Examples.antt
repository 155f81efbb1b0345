-- ===== src/Examples.antt =====
-- A small program on which the parts run: its values and functions, tasks, queues and states.
mod Queues
mod Systems
mod Cancel
mod Drain
mod Ticks
mod Runs
mod Cron
mod Settings
mod Parts
use tlo.Prelude.{
  String, ℕ, suc, ◌+◌, ◌≡◌, refl, true, Option, none, some, List, [], ◌∷◌, ◌==◌, arith, text_dec,
  ite,
}
use tlo.Errors.{Exception, Result, ok, raise, key_error, user, value_error}
use tlo.Task.{Values, QueuedTask, TaskStateRecord, pending}
use tlo.Queue.Simple.{SimpleInMemoryQueue}
use tlo.Queue.Map.{MapQueue}
use tlo.Cron.{CronFields, all_days_of_month}
use tlo.Queue.Simple
use tlo.Queue.Map
use tlo.System.{System, drain}
use tlo.Executor.{Calls}
use tlo.System.Queues.{simple_queue}
use tlo.Registry.{TaskDef}
use tlo.Registry.Schedules.{interval}

pub same : (a : ℕ) → (a == a) ≡ true
same a = ground arith

-- At nine o'clock on each Monday.
abbrev pub monday : CronFields
monday = record {
  minute = 0 ∷ [];
  hour = 9 ∷ [];
  day_of_month = all_days_of_month;
  month = 1 ∷ 2 ∷ 3 ∷ 4 ∷ 5 ∷ 6 ∷ 7 ∷ 8 ∷ 9 ∷ 10 ∷ 11 ∷ 12 ∷ [];
  day_of_week = 1 ∷ [];
}

-- Functions are known by name, arguments and results are numbers, and a template is its own key,
-- except that "{missing}" names no keyword.
abbrev pub values : Values
values = record {
  Args = ℕ;
  Kwargs = Unit;
  Any = ℕ;
  no_args = 0;
  no_kwargs = tt;
  args_eq = λ a b. a == b;
  kwargs_eq = λ a b. true;
  args_eq_refl = same;
  kwargs_eq_refl = λ a. refl;
  str = λ e. 500;
  Func = String;
  func_name = λ f. f;
  Extra = Unit;
  no_extra = tt;
  vformat = λ t a k. ite (text_dec t "{missing}") (raise key_error) (ok t);
  Custom = ℕ;
  custom_next_run = λ c t. ok (suc t);
  parse_cron = λ text. ite (text_dec text "0 9 * * 1") (ok monday) (raise value_error);
}

abbrev pub make_task : String → String → ℕ → Option ℕ → Option String → QueuedTask values
make_task id queue_name enqueued_at eta key = record {
  task_name = "report";
  queue_name = queue_name;
  id = id;
  args = 3;
  kwargs = tt;
  enqueued_at = enqueued_at;
  eta = eta;
  exclusive_key = key;
}

-- A mail at 1, a report at 2 whose ETA is 9, and a report at 5 that needs the key "disk".
abbrev pub mail : QueuedTask values
mail = make_task "a" "mail" 1 none none

abbrev pub late : QueuedTask values
late = make_task "b" "default" 2 (some 9) none

abbrev pub disk : QueuedTask values
disk = make_task "c" "default" 5 none (some "disk")

-- The two queues, with these tasks put in one by one.
abbrev pub one : SimpleInMemoryQueue values
one = Simple.enqueue mail (Simple.init "default")

abbrev pub one_deque : MapQueue values
one_deque = Map.enqueue mail (Map.init "default")

abbrev pub two : SimpleInMemoryQueue values
two = Simple.enqueue late one

abbrev pub two_deques : MapQueue values
two_deques = Map.enqueue late one_deque

abbrev pub three : SimpleInMemoryQueue values
three = Simple.enqueue disk two

abbrev pub three_deques : MapQueue values
three_deques = Map.enqueue disk two_deques

abbrev pub report : TaskDef values
report = record {
  func = "report";
  name = "report";
  extra = tt;
  schedule = some (interval 100);
  exclusive_template = some "disk";
}

abbrev pub record_for : QueuedTask values → TaskStateRecord values
record_for t = record {
  id = t.id;
  name = t.task_name;
  created_at = t.enqueued_at;
  created_by = "Tlo";
  started_at = none;
  finished_at = none;
  status = pending;
  result = none;
}

-- The system with these tasks, at a clock that reads 20, 21, 22, and so on.
abbrev pub system : System (simple_queue values)
system = record {
  settings = record {
    tick_interval = 10;
    default_queue = "default";
    stop_behavior = drain;
    panic_mode = true;
  };
  tasks = ("report", report) ∷ [];
  store = ("a", record_for mail) ∷ ("b", record_for late) ∷ ("c", record_for disk) ∷ [];
  queue = three;
  locker = record { keys = [] };
  last_run = ("report", 15) ∷ [];
  running = true;
  times = λ n. 20 + n;
  reads = 0;
  uuids = λ n. "d";
  drawn = 0;
}

-- The function "report" returns its argument and one; any other raises.
abbrev pub calls : Calls (simple_queue values)
calls f a k s = (s, ite (text_dec f "report") (ok (suc a)) (raise (user f)))
