-- ===== src/Task.antt =====
-- queue/queued_item.py, task_state_store/common.py and tlo_types.py: the data that the parts share.
-- A datetime is a number of microseconds since the epoch, in UTC.
use tlo.Prelude.{
  String, ℕ, ◌*◌, ◌≡◌, Bool, true, false, ◌&&◌, Option, none, some, ◌==◌, text_dec, ite, arith,
}
use tlo.Errors.{Exception, Result}
use tlo.Cron.{CronFields}

-- What the package only passes on: the arguments of a call, with `==` on them (which a list takes
-- to hold of an object and itself), the results, and `str` of an exception.
pub record Values : Type 1 where
  pub Args : Type 0
  pub Kwargs : Type 0
  pub Any : Type 0
  pub no_args : Args
  pub no_kwargs : Kwargs
  pub args_eq : Args → Args → Bool
  pub kwargs_eq : Kwargs → Kwargs → Bool
  pub args_eq_refl : (a : Args) → args_eq a a ≡ true
  pub kwargs_eq_refl : (a : Kwargs) → kwargs_eq a a ≡ true
  pub str : Exception → Any
  -- A task's function, with its `__name__` ("<unknown>" if it has none), and the metadata `extra`.
  pub Func : Type 0
  pub func_name : Func → String
  pub Extra : Type 0
  pub no_extra : Extra
  -- `string.Formatter().vformat`.
  pub vformat : String → Args → Kwargs → Result String
  -- Schedules that callers supply, and the parser of cron expressions that `CronSchedule` uses.
  pub Custom : Type 0
  pub custom_next_run : Custom → ℕ → Result ℕ
  pub parse_cron : String → Result CronFields

pub record QueuedTask (V : Values) : Type 0 where
  pub task_name : String
  pub queue_name : String
  pub id : String
  pub args : V.Args
  pub kwargs : V.Kwargs
  pub enqueued_at : ℕ
  pub eta : Option ℕ
  pub exclusive_key : Option String

-- An ETA as callers give it: a datetime, a timestamp in whole seconds, or None.
pub data Eta : Type 0 where
  no_eta : Eta
  datetime : ℕ → Eta
  timestamp : ℕ → Eta

-- `__post_init__`, and the same conversion in `reschedule`.
unfoldable pub normalise_eta : Eta → Option ℕ
normalise_eta no_eta = none
normalise_eta (datetime t) = some t
normalise_eta (timestamp s) = some (s * 1_000_000)

abbrev text_eq : String → String → Bool
text_eq a b = ite (text_dec a b) true false

option_text_eq : Option String → Option String → Bool
option_text_eq none none = true
option_text_eq (some a) (some b) = text_eq a b
option_text_eq _ _ = false

option_time_eq : Option ℕ → Option ℕ → Bool
option_time_eq none none = true
option_time_eq (some a) (some b) = a == b
option_time_eq _ _ = false

-- `==` of the dataclass: field by field.
unfoldable pub task_eq : {V : Values} → QueuedTask V → QueuedTask V → Bool
unfolding option_text_eq option_time_eq
task_eq {V} a b =
    text_eq a.task_name b.task_name
    && (text_eq a.queue_name b.queue_name
        && (text_eq a.id b.id
            && (V.args_eq a.args b.args
                && (V.kwargs_eq a.kwargs b.kwargs
                    && ((a.enqueued_at == b.enqueued_at)
                        && (option_time_eq a.eta b.eta
                            && option_text_eq a.exclusive_key b.exclusive_key))))))

pub data TaskStatus : Type 0 where
  pending running failed succeeded cancelled : TaskStatus

pub record TaskStateRecord (V : Values) : Type 0 where
  pub id : String
  pub name : String
  pub created_at : ℕ
  pub created_by : String
  pub started_at : Option ℕ
  pub finished_at : Option ℕ
  pub status : TaskStatus
  pub result : Option V.Any

option_text_eq_refl : (a : Option String) → option_text_eq a a ≡ true
unfolding option_text_eq
option_text_eq_refl none = ground arith
option_text_eq_refl (some a) = ground arith

option_time_eq_refl : (a : Option ℕ) → option_time_eq a a ≡ true
unfolding option_time_eq
option_time_eq_refl none = ground arith
option_time_eq_refl (some a) = ground arith

pub task_eq_refl : {V : Values} (t : QueuedTask V) → task_eq t t ≡ true
unfolding task_eq
task_eq_refl {V} t = ground (
  arith,
  option_text_eq_refl t.exclusive_key,
  option_time_eq_refl t.eta,
  V.args_eq_refl t.args,
  V.kwargs_eq_refl t.kwargs,
)

option_time_eq-eq : (a b : Option ℕ) → option_time_eq a b ≡ true → a ≡ b
unfolding option_time_eq
option_time_eq-eq none none h = ground arith
option_time_eq-eq none (some b) h = ground arith
option_time_eq-eq (some a) none h = ground arith
option_time_eq-eq (some a) (some b) h = ground arith

-- What equal tasks share, as far as the queues look at them.
pub task_eq-eq :
    {V : Values} (a b : QueuedTask V)
    → task_eq a b ≡ true
    → (a.id ≡ b.id) × (a.queue_name ≡ b.queue_name) × (a.eta ≡ b.eta)
unfolding task_eq
task_eq-eq a b h = ground (arith, option_time_eq-eq a.eta b.eta)
