-- ===== src/Orchestrator/Served.antt =====
-- A task on its whole way: submitted by `submit_task`, taken by the executor's loop that drains the
-- queues, and asked for by `get_task_state`.
use tlo.Prelude.{
  String, ℕ, suc, ◌≤◌, ◌<◌, ◌≡◌, ◌≢◌, refl, inl, inr, true, Option, none, some, length, arith,
}
use tlo.Prelude.Dict
use tlo.Errors.{ok}
use tlo.Task.{Values, TaskStateRecord, Eta}
use tlo.StateStore
use tlo.Queue.Order.{name_or_default, is_eligible}
use tlo.System.{QueueProtocol, System}
use tlo.QueueLaws.{QueueLaws}
use tlo.Executor.{Calls, drain_queue}
use tlo.Executor.Drain.{LeavesSystem, IsFree, IsRunRecord}
use tlo.Executor.Drain.Sweeps.{Ready}
use tlo.Executor.Drain.Ends.{HasRun, drain_queue-eligible}
use tlo.Orchestrator.{exclusive_key_of, submit_task, get_task_state}
use tlo.Orchestrator.Submit.{submitted, after_submit, submit_task_lem}
use tlo.Orchestrator.Invariant.{after_submit-Inv}

module _ {V : Values} {P : QueueProtocol V} (L : QueueLaws P) (s : System P) (name : String)
    (args : V.Args) (kwargs : V.Kwargs) (queue_name : Option String) (eta : Eta)
    (key : Option String) where
  open L use {items}

  after_submit-Ready :
      name_or_default queue_name s.settings.default_queue ≢ ""
      → IsFree s.locker key
      → Ready L s
      → Ready L (after_submit s name args kwargs queue_name eta key)
  after_submit-Ready ne free i = record {
    inv = after_submit-Inv L s name args kwargs queue_name eta key ne i.inv;
    free =
        (L.enqueue_same (λ t. IsFree s.locker t.exclusive_key)
            (submitted s name args kwargs queue_name eta key) s.queue).1
          (free, i.free);
  }

  HasRun-get_task_state :
      (id : String) (u : System P)
      → HasRun u id
      → (r : TaskStateRecord V) × (get_task_state id u ≡ (u, ok r)) × IsRunRecord r
  unfolding get_task_state
  HasRun-get_task_state id u (r, l, x) = (r, rw (StateStore.get_stored id u.store l) refl, x)

  -- Over a queue that keeps the laws of QueueLaws, in a state that is Ready (the queue is valid,
  -- each queued task has a record, each record stands under its own id, and no queued task's
  -- exclusive key is held), where the tasks' functions leave records, queue, locker, settings and
  -- the executor's flag as they are and only read the clock, and the clock does not go back: a task
  -- is submitted to a queue whose name is not empty, its exclusive key renders and is free, its new
  -- id has no record, and it is eligible at the next reading of the clock but one. Then the
  -- submission succeeds, the loop of _drain_queue behind it ends without an exception, within as
  -- many rounds as there are queued tasks and the new one, and one, and get_task_state for the new
  -- id gives a record with both times, a result and the status succeeded or failed.
  pub drain_queue-submit_task :
      (calls : Calls P)
      → LeavesSystem calls
      → Ready L s
      → name_or_default queue_name s.settings.default_queue ≢ ""
      → exclusive_key_of name args kwargs s ≡ ok key
      → IsFree s.locker key
      → Dict.lookup (s.uuids s.drawn) s.store ≡ none
      → ((i j : ℕ) → i ≤ j → s.times i ≤ s.times j)
      → is_eligible (s.times (suc s.reads)) (submitted s name args kwargs queue_name eta key) ≡ true
      → (fuel : ℕ) → suc (length (items s.queue)) < fuel
      → (u v : System P) × (r : TaskStateRecord V) × (submit_task name args kwargs queue_name eta s
          ≡ (u, ok tt))
        × (drain_queue calls fuel u ≡ some (v, ok tt))
        × (get_task_state (s.uuids s.drawn) v ≡ (v, ok r))
        × IsRunRecord r
  drain_queue-submit_task calls leaves i ne e free new clock now fuel h =
      let task = submitted s name args kwargs queue_name eta key in
      let u = after_submit s name args kwargs queue_name eta key in
      let (v, ends, all) =
        drain_queue-eligible L calls leaves fuel u (after_submit-Ready ne free i) clock
          (omega (arith, h, L.length-enqueue task s.queue)) in
      let mine = ((L.enqueue_same _ task s.queue).0 all).0 in
      let (r, got, x) =
        HasRun-get_task_state task.id v
          (elim mine [ inl run ↦ run | inr waits ↦ absurd (ground (arith, now, waits)) ]) in
      (u, v, r, submit_task_lem s name args kwargs queue_name eta key e new, ends, got, x)
