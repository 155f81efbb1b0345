-- ===== src/Scheduler/Rate.antt =====
-- What one visit of `tick` does, and how often a task on an interval is enqueued.
use tlo.Prelude.{
  ap, ◌∙◌, if_pos, if◌then◌else◌, String, ℕ, suc, ◌+◌, ◌≤◌, ◌<◌, ◌≡◌, refl, Bool, true, false,
  Option, none, some, text_dec, arith,
}
use tlo.Prelude.Dict
use tlo.Errors.{ok, raise, Exception}
use tlo.Task.{Values, QueuedTask}
use tlo.StateStore
use tlo.Registry.{TaskDef, render_exclusive_key}
use tlo.Registry.Schedules.{Schedule, interval}
use tlo.System.{QueueProtocol, System}
use tlo.Scheduler.{
  new_task, new_record, submit_due, visit, visit_schedule, visit_scheduled, should_run,
}

module _ {V : Values} {P : QueueProtocol V} (s : System P) (d : TaskDef V) (t : ℕ) where
  -- The task that a visit makes: its id is the next one drawn, its time the next reading of the clock.
  abbrev pub due_task : Option String → QueuedTask V
  due_task key = new_task (s.uuids s.drawn) (P.default_queue s.queue) (s.times s.reads) d key

  abbrev pub after_due : Option String → System P
  after_due key = record s {
    drawn = suc s.drawn;
    reads = suc s.reads;
    store = Dict.insert (s.uuids s.drawn) (new_record "SimpleScheduler" (due_task key)) s.store;
    queue = P.enqueue (due_task key) s.queue;
    last_run = Dict.insert d.name t s.last_run;
  }

  -- A due task whose exclusive key renders and whose id is new is enqueued on the default queue, with
  -- a pending record of the same id, and its last run is set to the time of the tick. Nothing else
  -- changes.
  pub submit_due_lem :
      (key : Option String)
      → render_exclusive_key d V.no_args V.no_kwargs ≡ ok key
      → Dict.lookup (s.uuids s.drawn) s.store ≡ none
      → submit_due t d s ≡ (after_due key, ok tt)
  unfolding submit_due
  submit_due_lem key e new =
      rw (e, StateStore.create_new (new_record "SimpleScheduler" (due_task key)) s.store new) refl

  -- A task with no schedule is passed over. So is one on an interval that is not over.
  pub visit_idle : d.schedule ≡ none → visit t d s ≡ (s, ok tt)
  unfolding visit
  visit_idle e = ap (λ o. visit_schedule t d o s) e

  should_run_early :
      (panic : Bool) (n last : ℕ)
      → t < last + n
      → should_run {V = V} panic t (interval n) (some last) ≡ ok false
  unfolding should_run
  should_run_early panic n last h = ground arith

  should_run_due :
      (panic : Bool) (n last : ℕ)
      → last + n ≤ t
      → should_run {V = V} panic t (interval n) (some last) ≡ ok true
  unfolding should_run
  should_run_due panic n last h = ground arith

  pub visit-should_run :
      (schedule : Schedule V) (due : Bool)
      → d.schedule ≡ some schedule
      → should_run s.settings.panic_mode t schedule (Dict.lookup d.name s.last_run) ≡ ok due
      → visit t d s ≡ (if due then submit_due t d s else (s, ok tt))
  unfolding visit visit_scheduled
  visit-should_run schedule due e f = ap (λ o. visit_schedule t d o s) e ∙ split due f
    where
      split :
          (b : Bool)
          → should_run s.settings.panic_mode t schedule (Dict.lookup d.name s.last_run) ≡ ok b
          → visit_scheduled t d schedule s ≡ (if b then submit_due t d s else (s, ok tt))
      split true g = rw g refl
      split false g = rw g refl

  pub visit-raise :
      (schedule : Schedule V) (x : Exception)
      → d.schedule ≡ some schedule
      → should_run s.settings.panic_mode t schedule (Dict.lookup d.name s.last_run) ≡ raise x
      → visit t d s ≡ (s, raise x)
  unfolding visit visit_scheduled
  visit-raise schedule x e f = ap (λ o. visit_schedule t d o s) e ∙ failed f
    where
      failed :
          should_run s.settings.panic_mode t schedule (Dict.lookup d.name s.last_run) ≡ raise x
          → visit_scheduled t d schedule s ≡ (s, raise x)
      failed g = rw g refl

  pub visit_early :
      (n last : ℕ)
      → d.schedule ≡ some (interval n)
      → Dict.lookup d.name s.last_run ≡ some last
      → t < last + n
      → visit t d s ≡ (s, ok tt)
  visit_early n last e f h =
      visit-should_run (interval n) false e (rw f (should_run_early s.settings.panic_mode n last h))

  -- A scheduled task that is due, whose exclusive key renders and whose new id has no record, is
  -- enqueued on the default queue with a pending record of the same id, and its last run is set to
  -- the time of the tick; an id is drawn, the clock is read once, and nothing else changes.
  pub visit_due :
      (schedule : Schedule V) (key : Option String)
      → d.schedule ≡ some schedule
      → should_run s.settings.panic_mode t schedule (Dict.lookup d.name s.last_run) ≡ ok true
      → render_exclusive_key d V.no_args V.no_kwargs ≡ ok key
      → Dict.lookup (s.uuids s.drawn) s.store ≡ none
      → visit t d s ≡ (after_due key, ok tt)
  visit_due schedule key e f k new = visit-should_run schedule true e f ∙ submit_due_lem key k new

module _ {V : Values} {P : QueueProtocol V} (s : System P) (d : TaskDef V) (t : ℕ) where
  -- In the state that the submission of a task on an interval of n leaves at time t, if its
  -- exclusive key renders and its new id had no record, a visit before t + n passes the task over
  -- and changes nothing, and a visit at t + n or later submits it again.
  pub submit_due-interval :
      (n t' : ℕ) (key : Option String)
      → d.schedule ≡ some (interval n)
      → render_exclusive_key d V.no_args V.no_kwargs ≡ ok key
      → Dict.lookup (s.uuids s.drawn) s.store ≡ none
      → (t' < t + n → visit t' d (submit_due t d s).0 ≡ ((submit_due t d s).0, ok tt))
        × (t + n ≤ t' → visit t' d (submit_due t d s).0 ≡ submit_due t' d (submit_due t d s).0)
  submit_due-interval n t' key e k new = rw (submit_due_lem s d t key k new) (
    λ h. visit_early (after_due s d t key) d t' n t e last h,
    λ h.
        visit-should_run (after_due s d t key) d t' (interval n) true e
          (rw last (should_run_due (after_due s d t key) d t' s.settings.panic_mode n t h)),
  )
    where
      last : Dict.lookup d.name (Dict.insert d.name t s.last_run) ≡ some t
      last =
          Dict.lookup-insert d.name d.name t s.last_run ∙ if_pos (text_dec d.name d.name) refl _ _
