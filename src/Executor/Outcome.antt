-- ===== src/Executor/Outcome.antt =====
-- What `get_task_state` tells of a task that `_execute_task` has run, whether it returned or raised.
use tlo.Prelude.{ℕ, suc, ◌≡◌, refl, ap, ◌∙◌, Option, none, some, text_dec, if_pos}
use tlo.Prelude.Dict
use tlo.Errors.{Result, ok, raise, Exception}
use tlo.Task.{Values, QueuedTask, TaskStateRecord, succeeded, failed}
use tlo.StateStore
use tlo.System.{QueueProtocol, System}
use tlo.Executor.{Calls, or_else, execute_task, run_function, get_task_state}
use tlo.Executor.Execute.{running_system, execute_task_returns, execute_task_raises}

-- A start is set once: to now if there is none, and an earlier one is kept.
pub data Starts (now : ℕ) : Option ℕ → Option ℕ → Type 0 where
  first : Starts now none (some now)
  again : {t : ℕ} → Starts now (some t) (some t)

or_else-Starts : (o : Option ℕ) (now : ℕ) → Starts now o (or_else o now)
or_else-Starts none now = first
or_else-Starts (some t) now = again

module _ {V : Values} where
  -- What a record holds of the end of a function: its value, or the text of its exception.
  pub data Ends (q : TaskStateRecord V) : Result V.Any → Type 0 where
    returned : {value : V.Any} → q.status ≡ succeeded → q.result ≡ some value → Ends q (ok value)
    raised : {x : Exception} → q.status ≡ failed → q.result ≡ some (V.str x) → Ends q (raise x)

  -- The record of a task that was run between two readings of the clock.
  pub record HasRun (r : TaskStateRecord V) (start finish : ℕ) (outcome : Result V.Any)
      (q : TaskStateRecord V) : Type 0 where
    pub same_id : q.id ≡ r.id
    pub same_name : q.name ≡ r.name
    pub same_created_at : q.created_at ≡ r.created_at
    pub same_created_by : q.created_by ≡ r.created_by
    pub starts : Starts start r.started_at q.started_at
    pub finished : q.finished_at ≡ some finish
    pub ends : Ends q outcome

module _ {V : Values} {P : QueueProtocol V} (calls : Calls P) (task : QueuedTask V) (s u : System P)
    (r old now_stored : TaskStateRecord V) where
  -- The record that is left, and the state around it.
  abbrev pub Left : Result V.Any → System P → Type 0
  Left outcome after =
      (q : TaskStateRecord V) × ((get_task_state r.id after ≡ (after, ok q))
        × (HasRun r (s.times s.reads) (u.times u.reads) outcome q
            × (after ≡ record u { reads = suc u.reads; store = Dict.insert r.id q u.store })))

  settled-Left :
      (outcome : Result V.Any) (q : TaskStateRecord V)
      → q.id ≡ r.id
      → HasRun r (s.times s.reads) (u.times u.reads) outcome q
      → Left outcome (record u { reads = suc u.reads; store = Dict.insert r.id q u.store })
  unfolding get_task_state
  settled-Left outcome q same run = (
    q,
    (
      ap (λ x. (record u { reads = suc u.reads; store = Dict.insert r.id q u.store }, x))
          (StateStore.get_stored r.id (Dict.insert r.id q u.store)
            (Dict.lookup-insert r.id r.id q u.store ∙ if_pos (text_dec r.id r.id) refl _ _)),
      (run, refl),
    ),
  )

  -- If the record of a task is stored, its function is run behind the marking as running and
  -- returns or raises, and the record is still stored then, execute_task raises nothing, and
  -- get_task_state gives a record with the id, name, creation time and creator of the task's: it is
  -- started at the first reading of the clock, or at an earlier start if it had one, finished at
  -- the first reading behind the function, and succeeded with the function's value if that
  -- returned, failed with the text of the exception if it raised. That record is stored, the clock
  -- is read once more, and nothing else changes behind the function.
  pub execute_task-get_task_state :
      (outcome : Result V.Any)
      → Dict.lookup r.id s.store ≡ some old
      → run_function calls task (running_system s r) ≡ (u, outcome)
      → Dict.lookup r.id u.store ≡ some now_stored
      → ((execute_task calls task r s).1 ≡ ok tt) × Left outcome (execute_task calls task r s).0
  execute_task-get_task_state (ok value) e f g =
      rw (execute_task_returns calls task s r old now_stored u value e f g) (
        refl,
        settled-Left (ok value) _ refl (record {
          same_id = refl;
          same_name = refl;
          same_created_at = refl;
          same_created_by = refl;
          starts = or_else-Starts r.started_at (s.times s.reads);
          finished = refl;
          ends = returned refl refl;
        }),
      )
  execute_task-get_task_state (raise x) e f g =
      rw (execute_task_raises calls task s r old now_stored u x e f g) (
        refl,
        settled-Left (raise x) _ refl (record {
          same_id = refl;
          same_name = refl;
          same_created_at = refl;
          same_created_by = refl;
          starts = or_else-Starts r.started_at (s.times s.reads);
          finished = refl;
          ends = raised refl refl;
        }),
      )
