-- ===== src/Executor.antt =====
-- executor/executor.py, LocalExecutor: tasks run one by one in the caller's process.
pub mod Execute
pub mod Outcome
pub mod Sweep
pub mod Pending
pub mod Cancel
pub mod Drain
use tlo.Prelude.{
  String, ℕ, zero, suc, ◌+◌, Bool, true, false, Option, none, some, List, [], ◌∷◌, ◌==◌, ◌||◌,
  if◌then◌else◌,
}
use tlo.Errors.{
  Result, ok, raise, Exception, Action, return, throw, ◌>>=◌, ◌>>◌, then_do, settle, skip_if_empty,
  type_error,
}
use tlo.Task.{
  Values, QueuedTask, TaskStatus, running, succeeded, failed, cancelled, TaskStateRecord,
}
use tlo.Locking.{guard}
use tlo.StateStore
use tlo.Registry.{get_task}
use tlo.System.{
  QueueProtocol, StopBehavior, drain, cancel, ignore, System, now, on_store, on_queue, asks,
  enqueue,
}
use tlo.Scheduler.{tick}

-- What calling a task's function does, awaiting its result if it is awaitable: it may use any part of
-- the system, and returns or raises.
abbrev pub Calls : {V : Values} → QueueProtocol V → Type 0
Calls {V} P = V.Func → V.Args → V.Kwargs → Action (System P) V.Any

abbrev pub or_else : Option ℕ → ℕ → Option ℕ
or_else none t = some t
or_else (some a) t = some a

module _ {V : Values} {P : QueueProtocol V} where
  unfoldable pub get_record : QueuedTask V → Action (System P) (TaskStateRecord V)
  get_record task = asks (λ s. StateStore.get task.id s.store)

  -- The record is changed and stored; the later marks get it as it then is.
  unfoldable pub mark_running : TaskStateRecord V → Action (System P) (TaskStateRecord V)
  mark_running r = do
    t ← now
    let r' = record r { started_at = or_else r.started_at t; status = running }
    on_store (StateStore.update r')
    return r'

  abbrev pub finish : TaskStatus → Option V.Any → TaskStateRecord V → Action (System P) (Unit {0})
  finish status result r = do
    t ← now
    on_store
        (StateStore.update (record r { finished_at = some t; status = status; result = result }))

  unfoldable pub mark_succeeded : TaskStateRecord V → V.Any → Action (System P) (Unit {0})
  mark_succeeded r result = finish succeeded (some result) r

  unfoldable pub mark_failed : TaskStateRecord V → Exception → Action (System P) (Unit {0})
  mark_failed r e = finish failed (some (V.str e)) r

  -- The `for` loop over the counted queues: did any of them make progress?
  unfoldable pub sweep_once :
      (String × ℕ → Action (System P) Bool) → List (String × ℕ) → Bool → Action (System P) Bool
  sweep_once one [] progress s = (s, ok progress)
  sweep_once one (q ∷ qs) progress s =
      then_do (λ made. sweep_once one qs (progress || made)) (one q s)

  -- The `while True` loop over `total_tasks_by_queue`; `none` if the fuel runs out.
  unfoldable pub sweep :
      (String × ℕ → Action (System P) Bool) → ℕ → System P → Option (System P × Result (Unit {0}))
  sweep one zero s = none
  sweep one (suc fuel) s =
      let (s', r) = sweep_once one (P.total_tasks_by_queue s.queue) false s in
      elim (P.total_tasks_by_queue s.queue) [
        | [] ↦ some (s, ok tt)
        | _ ∷ _ ↦ elim r [
          | raise e ↦ some (s', raise e)
          | ok made ↦ elim made [ false ↦ some (s', ok tt) | true ↦ sweep one fuel s' ]
        ]
      ]

  -- A second loop behind a first: it runs only if the first ends with no exception.
  abbrev pub and_then :
      Option (System P × Result (Unit {0}))
      → (System P → Option (System P × Result (Unit {0})))
      → Option (System P × Result (Unit {0}))
  and_then none f = none
  and_then (some (s, ok _)) f = f s
  and_then (some (s, raise e)) f = some (s, raise e)

  -- One task in the loop of `_cancel_pending_tasks`.
  unfoldable pub cancel_task : QueuedTask V → Action (System P) Bool
  unfolding get_record
  cancel_task task = do
    r ← get_record task
    t ← now
    on_store (StateStore.update (record r { finished_at = some t; status = cancelled }))
    return true

  unfoldable pub cancel_one : String × ℕ → Action (System P) Bool
  unfolding skip_if_empty
  cancel_one (name, count) s =
      let attempt =
        settle cancel_task skip_if_empty (on_queue (P.dequeue_any_unsafe (some name)) s) in
      if count == 0 then (s, ok false) else attempt

  unfoldable pub cancel_pending_tasks : ℕ → System P → Option (System P × Result (Unit {0}))
  cancel_pending_tasks fuel s = sweep cancel_one fuel s

  module _ (calls : Calls P) where
    -- The body of the `try` of `_execute_task`.
    unfoldable pub run_function : QueuedTask V → Action (System P) V.Any
    run_function task = do
      d ← asks (λ s. get_task task.task_name s.tasks)
      calls d.func task.args task.kwargs

    unfoldable pub execute_task : QueuedTask V → TaskStateRecord V → Action (System P) (Unit {0})
    unfolding mark_running mark_succeeded mark_failed
    execute_task task r = do
      r' ← mark_running r
      λ s. settle (mark_succeeded r') (mark_failed r') (run_function task s)

    -- The lock is held by another: the task goes back with an ETA one tick from now.
    unfoldable pub requeue : QueuedTask V → Action (System P) (Unit {0})
    requeue task = do
      t ← now
      λ s. enqueue (record task { eta = some (t + s.settings.tick_interval) }) s

    -- `with guard as acquired`, or no lock for a task with no key.
    unfoldable pub with_key :
        Option String → QueuedTask V → TaskStateRecord V → Action (System P) (Unit {0})
    with_key none task r s = execute_task task r s
    with_key (some key) task r s =
        guard (λ u. u.locker) (λ l u. record u { locker = l }) key
          (λ acquired. if acquired then execute_task task r else requeue task) s

    unfoldable pub execute : QueuedTask V → Action (System P) (Unit {0})
    unfolding get_record
    execute task = do r ← get_record task; with_key task.exclusive_key task r

    -- One queue in the loop of `_drain_queue`: was a task executed?
    unfoldable pub drain_one : String × ℕ → Action (System P) Bool
    unfolding execute skip_if_empty
    drain_one (name, count) s =
        let attempt =
          (do
            t ← now
            λ u.
                settle (λ task. execute task >> return true) skip_if_empty
                  (on_queue (P.dequeue (some name) t) u))
            s in
        if count == 0 then (s, ok false) else attempt

    unfoldable pub drain_queue : ℕ → System P → Option (System P × Result (Unit {0}))
    unfolding drain_one sweep
    drain_queue fuel s = sweep drain_one fuel s

    -- `_handle_stop_pending`, with the fuel of each loop.
    unfoldable pub handle_stop_pending : ℕ → Bool → System P → Option (System P × Result (Unit {0}))
    unfolding drain_queue cancel_pending_tasks
    handle_stop_pending fuel cancel_requested s =
        elim (if cancel_requested then cancel else s.settings.stop_behavior) [
          | cancel ↦ cancel_pending_tasks fuel s
          | ignore ↦ some (s, ok tt)
          | drain ↦ and_then (drain_queue fuel s) (cancel_pending_tasks fuel)
        ]

    unfoldable pub stop : ℕ → Bool → System P → Option (System P × Result (Unit {0}))
    unfolding handle_stop_pending
    stop fuel cancel_requested s =
        handle_stop_pending fuel cancel_requested (record s { running = false })

    -- The `while` loop of `run`: a tick, and then the queues are drained. `none` if it still runs
    -- when the rounds are used up. The pause between two rounds changes nothing but the clock.
    unfoldable pub run_loop : ℕ → ℕ → System P → Option (System P × Result (Unit {0}))
    unfolding tick drain_queue
    run_loop fuel zero s = none
    run_loop fuel (suc rounds) s =
        let next = and_then (and_then (some (tick s)) (drain_queue fuel)) (run_loop fuel rounds) in
        if s.running then next else some (s, ok tt)

    -- `run`: `_start`, the loop, and `self._running = False` however it ends.
    unfoldable pub run : ℕ → ℕ → System P → Option (System P × Result (Unit {0}))
    unfolding run_loop
    run fuel rounds s = elim (run_loop fuel rounds (record s { running = true })) [
      | some (s', r) ↦ some (record s' { running = false }, r)
      | none ↦ none
    ]

  -- The asynchronous methods are not supported.
  unfoldable pub run_async : Action (System P) (Unit {0})
  run_async = throw type_error

  unfoldable pub execute_async : QueuedTask V → Action (System P) (Unit {0})
  execute_async task = throw type_error

  abbrev pub is_running : System P → Bool
  is_running s = s.running

  unfoldable pub stop_task : String → Action (System P) (TaskStateRecord V)
  stop_task id = throw type_error

  unfoldable pub get_task_state : String → Action (System P) (TaskStateRecord V)
  get_task_state id = asks (λ s. StateStore.get id s.store)
