-- ===== src/Orchestrator/Reachable.antt =====
-- The runtime as a state machine: its start, its steps, and what holds in each state it reaches.
use tlo.Prelude.{
  String, ℕ, ◌≡◌, ◌≢◌, refl, Bool, false, Option, some, [], if◌then◌else◌, length, ◌<◌,
}
use tlo.Prelude.Dict
use tlo.Errors.{Result, ok}
use tlo.Task.{Values, Eta}
use tlo.Locking.{is_locked, contains}
use tlo.Registry.Schedules.{Interval}
use tlo.System.{QueueProtocol, System, Settings, StopBehavior, drain, cancel, ignore}
use tlo.QueueLaws.{QueueLaws}
use tlo.Scheduler.{tick}
use tlo.Executor.{Calls, drain_queue, cancel_pending_tasks, run_loop, handle_stop_pending, and_then}
use tlo.Executor
use tlo.Executor.Drain.{LeavesSystem}
use tlo.Executor.Drain.Ends.{stop_drain_lem}
use tlo.Executor.Cancel.Stop.{stop_lem}
use tlo.Orchestrator.{initial_system, register, submit_task, run, stop}
use tlo.Orchestrator.Sound.{Sound, Sound-Ready, tick-Sound, stopped-Sound, drain_queue-Sound}
use tlo.Orchestrator.Kept.{submit_task-Sound, handle_stop_pending-Sound, run-Sound}

module _ {V : Values} {P : QueueProtocol V} where
  -- One call, by which a program or its executor changes the runtime: the state that it leaves,
  -- whether it returns or raises. The loops have whatever fuel lets them end.
  pub data Step (calls : Calls P) (s : System P) : System P → Type 0 where
    registers :
        (name : Option String) (interval : Option Interval) (cron : Option String)
        (schedule : Option V.Custom) (extra : Option V.Extra) (func : V.Func)
        → Step calls s (register name interval cron schedule extra func s).0
    submits :
        (name : String) (args : V.Args) (kwargs : V.Kwargs) (queue_name : Option String) (eta : Eta)
        → Step calls s (submit_task name args kwargs queue_name eta s).0
    ticks : Step calls s (tick s).0
    drains :
        (fuel : ℕ) (u : System P) (r : Result (Unit {0}))
        → drain_queue calls fuel s ≡ some (u, r)
        → Step calls s u
    runs :
        (fuel rounds : ℕ) (u : System P) (r : Result (Unit {0}))
        → run calls fuel rounds s ≡ some (u, r)
        → Step calls s u
    stops :
        (fuel : ℕ) (cancel_requested : Bool) (u : System P) (r : Result (Unit {0}))
        → stop calls fuel cancel_requested s ≡ some (u, r)
        → Step calls s u

  pub data Reaches (calls : Calls P) (s : System P) : System P → Type 0 where
    starts : Reaches calls s s
    steps : {u v : System P} → Reaches calls s u → Step calls u v → Reaches calls s v

module _ {V : Values} {P : QueueProtocol V} (L : QueueLaws P) where
  open L use {items, IsValid}

  initial-Sound :
      (settings : Settings) (q : P.Queue) (times : ℕ → ℕ) (uuids : ℕ → String)
      → IsValid q
      → items q ≡ []
      → P.default_queue q ≢ ""
      → settings.default_queue ≢ ""
      → Sound L (initial_system settings q times uuids)
  unfolding initial_system is_locked contains Dict.lookup
  initial-Sound settings q times uuids v e n m = record {
    inv = record { valid = v; stored = rw e tt; keyed = λ id r h. absurd (cc h) };
    free = λ key. refl;
    named = n;
    settings_named = m;
  }

module _ {V : Values} {P : QueueProtocol V} (L : QueueLaws P) (calls : Calls P)
    (leaves : LeavesSystem calls) where
  Step-Sound : (s u : System P) → Step calls s u → Sound L s → Sound L u
  unfolding register stop Executor.stop
  Step-Sound s u (registers name interval cron schedule extra func) i = record {
    inv = record { valid = i.inv.valid; stored = i.inv.stored; keyed = i.inv.keyed };
    free = i.free;
    named = i.named;
    settings_named = i.settings_named;
  }
  Step-Sound s u (submits name args kwargs queue_name eta) i =
      submit_task-Sound L s name args kwargs queue_name eta i
  Step-Sound s u ticks i = tick-Sound L s i
  Step-Sound s u (drains fuel _ r e) i = drain_queue-Sound L fuel s u r calls leaves e i
  Step-Sound s u (runs fuel rounds _ r e) i = run-Sound L s calls leaves fuel rounds u r e i
  Step-Sound s u (stops fuel c _ r e) i =
      handle_stop_pending-Sound L (record s { running = false }) calls leaves fuel _ c u r refl e
        (stopped-Sound L s false i)

  Reaches-Sound : (s u : System P) → Reaches calls s u → Sound L s → Sound L u
  Reaches-Sound s u starts i = i
  Reaches-Sound s u (steps {u = v} w t) i = Step-Sound v u t (Reaches-Sound s v w i)

  -- Over a queue that keeps the laws of QueueLaws, from the runtime that initial_system gives for a
  -- queue that is valid and empty, where the default queue has a name, by any sequence of
  -- registrations, submissions, ticks, draining loops, runs and stops, each of which ends in a
  -- value or an exception, where the tasks' functions leave records, queue, locker, settings and
  -- the executor's flag as they are and only read the clock, each state is Sound: the queue is
  -- valid, each queued task has a record, each record stands under its own id, no key is locked,
  -- and the default queue has a name still.
  pub initial_system-Sound :
      (settings : Settings) (q : P.Queue) (times : ℕ → ℕ) (uuids : ℕ → String)
      → L.IsValid q
      → L.items q ≡ []
      → P.default_queue q ≢ ""
      → settings.default_queue ≢ ""
      → (u : System P) → Reaches calls (initial_system settings q times uuids) u
      → Sound L u
  initial_system-Sound settings q times uuids v e n m u w =
      Reaches-Sound (initial_system settings q times uuids) u w
        (initial-Sound L settings q times uuids v e n m)

  stop-Sound :
      (fuel : ℕ) (cancel_requested : Bool) (s : System P)
      → Sound L s
      → length (L.items s.queue) < fuel
      → (u : System P) × (stop calls fuel cancel_requested s ≡ some (u, ok tt))
        × (u.running ≡ false)
  unfolding stop Executor.stop handle_stop_pending
  stop-Sound fuel c s i h = by_behavior _ refl
    where
      by_behavior :
          (b : StopBehavior)
          → (if c then cancel else s.settings.stop_behavior) ≡ b
          → (u : System P) × (stop calls fuel c s ≡ some (u, ok tt)) × (u.running ≡ false)
      by_behavior cancel k =
          let (u, e, off, _, _, _) = stop_lem L calls fuel c s i.inv k h in (u, e, off)
      by_behavior ignore k =
          (record s { running = false }, rw (Executor.stop, handle_stop_pending, k) refl, refl)
      by_behavior drain k =
          let (u, e, off, _, _, _) =
            stop_drain_lem L calls leaves fuel c s (Sound-Ready L s i) k h in
          (u, e, off)

  -- Over a queue that keeps the laws of QueueLaws, from the runtime that initial_system gives for a
  -- queue that is valid and empty, where the default queue has a name, by any sequence of
  -- registrations, submissions, ticks, draining loops, runs and stops, each of which ends in a
  -- value or an exception, where the tasks' functions leave records, queue, locker, settings and
  -- the executor's flag as they are and only read the clock, in each state a stop ends without an
  -- exception, whether it is to drain, cancel or ignore what is queued, within as many rounds of
  -- each loop as there are queued tasks, and one, and the executor does not run behind it.
  pub initial_system-stop :
      (settings : Settings) (q : P.Queue) (times : ℕ → ℕ) (uuids : ℕ → String)
      → L.IsValid q
      → L.items q ≡ []
      → P.default_queue q ≢ ""
      → settings.default_queue ≢ ""
      → (s : System P) → Reaches calls (initial_system settings q times uuids) s
      → (fuel : ℕ) (cancel_requested : Bool) → length (L.items s.queue) < fuel
      → (u : System P) × (stop calls fuel cancel_requested s ≡ some (u, ok tt))
        × (u.running ≡ false)
  initial_system-stop settings q times uuids v e n m s w fuel c h =
      stop-Sound fuel c s (initial_system-Sound settings q times uuids v e n m s w) h
