-- ===== src/Executor/Execute.antt =====
-- One task through the executor: the record that it leaves, and its lock.
use tlo.Prelude.{
  if_pos, text_dec, ap, ◌∙◌, if◌then◌else◌, String, suc, ◌+◌, ◌≡◌, refl, Bool, true, false, Option,
  some,
}
use tlo.Prelude.Dict
use tlo.Errors.{Result, ok, raise, Exception, Action}
use tlo.Task.{Values, QueuedTask, TaskStateRecord, running, succeeded, failed}
use tlo.StateStore
use tlo.Locking.Mutex.{guard_busy, guard_took, acquire_lem, is_locked-release_same}
use tlo.Locking.{InMemoryLocker, is_locked, acquire, release}
use tlo.System.{QueueProtocol, System}
use tlo.Executor.{Calls, or_else, execute, execute_task, requeue, with_key, run_function}

-- A system with a record settled at the next reading of its clock.
abbrev pub settled : {V : Values} {P : QueueProtocol V} → TaskStateRecord V → System P → System P
settled r u = record u { reads = suc u.reads; store = Dict.insert r.id r u.store }

-- A key is released behind a step.
abbrev pub released :
    {V : Values} {P : QueueProtocol V}
    → String
    → System P × Result (Unit {0})
    → System P × Result (Unit {0})
released key x = (record x.0 { locker = release key x.0.locker }, x.1)

module _ {V : Values} {P : QueueProtocol V} (s : System P) where
  -- The record as the function finds it, and the system in which it runs.
  abbrev pub started : TaskStateRecord V → TaskStateRecord V
  started r = record r { started_at = or_else r.started_at (s.times s.reads); status = running }

  abbrev pub running_system : TaskStateRecord V → System P
  running_system r = settled (started r) s

module _ {V : Values} {P : QueueProtocol V} (calls : Calls P) (task : QueuedTask V)
    (s : System P) where
  module _ (r old now_stored : TaskStateRecord V) (u : System P) where
    -- If the record of a task is stored, its function returns a value and the record is still
    -- stored then, execute_task first marks the record as running, keeping an earlier start, then
    -- runs the function, and stores the record as succeeded with that value, finished at the next
    -- reading of the clock.
    pub execute_task_returns :
        (value : V.Any)
        → Dict.lookup r.id s.store ≡ some old
        → run_function calls task (running_system s r) ≡ (u, ok value)
        → Dict.lookup r.id u.store ≡ some now_stored
        → execute_task calls task r s ≡ (
          settled
              (record (started s r) {
                finished_at = some (u.times u.reads);
                status = succeeded;
                result = some value;
              })
              u,
          ok tt,
        )
    unfolding execute_task
    execute_task_returns value e f g =
        rw
          (
            StateStore.update_stored (started s r) s.store e,
            f,
            StateStore.update_stored
                (record (started s r) {
                  finished_at = some (u.times u.reads);
                  status = succeeded;
                  result = some value;
                })
                u.store g,
          )
          refl

    pub execute_task_raises :
        (x : Exception)
        → Dict.lookup r.id s.store ≡ some old
        → run_function calls task (running_system s r) ≡ (u, raise x)
        → Dict.lookup r.id u.store ≡ some now_stored
        → execute_task calls task r s ≡ (
          settled
              (record (started s r) {
                finished_at = some (u.times u.reads);
                status = failed;
                result = some (V.str x);
              })
              u,
          ok tt,
        )
    unfolding execute_task
    execute_task_raises x e f g =
        rw
          (
            StateStore.update_stored (started s r) s.store e,
            f,
            StateStore.update_stored
                (record (started s r) {
                  finished_at = some (u.times u.reads);
                  status = failed;
                  result = some (V.str x);
                })
                u.store g,
          )
          refl

  abbrev attempt : TaskStateRecord V → Bool → Action (System P) (Unit {0})
  attempt r acquired = if acquired then execute_task calls task r else requeue calls task

  pub execute-with_key :
      (r : TaskStateRecord V) (o : Option String)
      → Dict.lookup task.id s.store ≡ some r
      → task.exclusive_key ≡ o
      → execute calls task s ≡ with_key calls o task r s
  unfolding execute
  execute-with_key r o e k =
      rw (StateStore.get_stored task.id s.store e) (ap (λ x. with_key calls x task r s) k)

  -- A task whose key is held and whose record is stored goes back into the queue with an ETA one
  -- tick interval after the clock's next reading; the clock is read once, and nothing else changes:
  -- its function is not called and its record stays as it is.
  pub execute_locked :
      (r : TaskStateRecord V) (key : String)
      → Dict.lookup task.id s.store ≡ some r
      → task.exclusive_key ≡ some key
      → is_locked key s.locker ≡ true
      → execute calls task s ≡ (
        record s {
          reads = suc s.reads;
          queue =
              P.enqueue
                (record task { eta = some (s.times s.reads + s.settings.tick_interval) })
                s.queue;
        },
        ok tt,
      )
  unfolding with_key requeue
  execute_locked r key e k h =
      execute-with_key r (some key) e k
      ∙ guard_busy (λ u. u.locker) (λ l u. record u { locker = l }) key (attempt r) s h

  -- With a free key the execution runs with the lock, which is released behind it.
  abbrev pub locked_system : String → System P
  locked_system key = record s { locker = (acquire key s.locker).0 }

  pub execute_took :
      (r : TaskStateRecord V) (key : String)
      → Dict.lookup task.id s.store ≡ some r
      → task.exclusive_key ≡ some key
      → is_locked key s.locker ≡ false
      → execute calls task s ≡ released key (execute_task calls task r (locked_system key))
  unfolding with_key
  execute_took r key e k h =
      execute-with_key r (some key) e k
      ∙ guard_took (λ u. u.locker) (λ l u. record u { locker = l }) key (attempt r) s h

  -- A task whose key is free and whose record is stored is executed by execute_task in a state that
  -- differs from the present one in the locker only, in which its key is locked; state and result
  -- are those of that execution, whether it returns or raises, but that the key is released, and
  -- the key is then free.
  pub execute_exclusive :
      (r : TaskStateRecord V) (key : String)
      → Dict.lookup task.id s.store ≡ some r
      → task.exclusive_key ≡ some key
      → is_locked key s.locker ≡ false
      → (l : InMemoryLocker) × (is_locked key l ≡ true)
        × (execute calls task s
            ≡ released key (execute_task calls task r (record s { locker = l })))
        × (is_locked key (execute calls task s).0.locker ≡ false)
  execute_exclusive r key e k h =
      let done = execute_task calls task r (locked_system key) in
      let held = (acquire_lem key key s.locker).1 ∙ if_pos (text_dec key key) refl true _ in
      let runs = execute_took r key e k h in
      (
        (acquire key s.locker).0,
        held,
        runs,
        ap (λ x. is_locked key x.0.locker) runs ∙ is_locked-release_same key done.0.locker,
      )
