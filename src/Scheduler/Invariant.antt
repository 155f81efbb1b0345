-- ===== src/Scheduler/Invariant.antt =====
-- `tick` and the invariant on which the executor relies.
use tlo.Prelude.{
  String, ℕ, suc, ◌≡◌, ◌≢◌, refl, sym, subst, Bool, true, false, Option, none, some, List, [], ◌∷◌,
  All-imp, Option-cases, inl, inr,
}
use tlo.Prelude.Dict
use tlo.Errors.{Result, Result-cases, ok, raise, Exception, tlo_error, config_error, then_do}
use tlo.Task.{Values}
use tlo.StateStore
use tlo.Registry.{TaskDef, render_exclusive_key}
use tlo.Registry.Schedules.{Schedule}
use tlo.System.{QueueProtocol, System}
use tlo.QueueLaws.{QueueLaws}
use tlo.Executor.Pending.{Inv, IsStored}
use tlo.Scheduler.{
  new_record, submit_due, should_run, visit_scheduled, visit_schedule, visit, visit_all, tick,
}
use tlo.Scheduler.Rate.{due_task, after_due, submit_due_lem}

module _ {V : Values} {P : QueueProtocol V} where
  module _ (s : System P) (d : TaskDef V) (t : ℕ) where
    due_unrendered :
        (x : Exception)
        → render_exclusive_key d V.no_args V.no_kwargs ≡ raise x
        → submit_due t d s ≡ (record s { drawn = suc s.drawn }, raise x)
    unfolding submit_due
    due_unrendered x e = rw e refl

    due_taken :
        {old : _}
        → (key : Option String) → render_exclusive_key d V.no_args V.no_kwargs ≡ ok key
        → Dict.lookup (s.uuids s.drawn) s.store ≡ some old
        → submit_due t d s
          ≡ (record s { drawn = suc s.drawn; reads = suc s.reads }, raise (tlo_error config_error))
    unfolding submit_due
    due_taken key e f =
        rw
          (e, StateStore.create_taken (new_record "SimpleScheduler" (due_task s d t key)) s.store f)
          refl

-- What drawing an id, reading the clock and a submission keep, a tick keeps.
module _ {V : Values} {P : QueueProtocol V} (K : System P → Type 0)
    (draws : (s : System P) → K s → K (record s { drawn = suc s.drawn }))
    (reads : (s : System P) → K s → K (record s { reads = suc s.reads }))
    (dues : (s : System P) (d : TaskDef V) (t : ℕ) (key : Option String)
      → K s
      → K (after_due s d t key)) where
  submit_due_keeps : (s : System P) (d : TaskDef V) (t : ℕ) → K s → K (submit_due t d s).0
  submit_due_keeps s d t k = elim (Result-cases (render_exclusive_key d V.no_args V.no_kwargs)) [
    | inr (x, e) ↦ subst (λ p. K p.0) (sym (due_unrendered s d t x e)) (draws s k)
    | inl (key, e) ↦ elim (Option-cases (Dict.lookup (s.uuids s.drawn) s.store)) [
      | inl f ↦ subst (λ p. K p.0) (sym (submit_due_lem s d t key e f)) (dues s d t key k)
      | inr (r, f) ↦
          subst (λ p. K p.0) (sym (due_taken s d t key e f))
            (reads (record s { drawn = suc s.drawn }) (draws s k))
    ]
  ]

  visit_scheduled_keeps :
      (t : ℕ) (d : TaskDef V) (schedule : Schedule V) (s : System P)
      → K s
      → K (visit_scheduled t d schedule s).0
  unfolding visit_scheduled
  visit_scheduled_keeps t d schedule s k = go _ refl
    where
      go :
          (r : Result Bool)
          → should_run s.settings.panic_mode t schedule (Dict.lookup d.name s.last_run) ≡ r
          → K (visit_scheduled t d schedule s).0
      go (raise x) e = rw e k
      go (ok false) e = rw e k
      go (ok true) e = rw e (submit_due_keeps s d t k)

  visit_schedule_keeps :
      (t : ℕ) (d : TaskDef V) (o : Option (Schedule V)) (s : System P)
      → K s
      → K (visit_schedule t d o s).0
  visit_schedule_keeps t d none s k = k
  visit_schedule_keeps t d (some schedule) s k = visit_scheduled_keeps t d schedule s k

  then_do_keeps :
      {A B : Type 0} (f : A → System P → System P × Result B)
      → ((a : A) (s : System P) → K s → K (f a s).0)
      → (x : System P × Result A) → K x.0
      → K (then_do f x).0
  then_do_keeps f h (s, ok a) k = h a s k
  then_do_keeps f h (s, raise e) k = k

  visit_all_keeps : (t : ℕ) (ds : List (TaskDef V)) (s : System P) → K s → K (visit_all t ds s).0
  unfolding visit_all visit
  visit_all_keeps t [] s k = k
  visit_all_keeps t (d ∷ ds) s k =
      then_do_keeps (λ _. visit_all t ds) (λ _ u. visit_all_keeps t ds u) (visit t d s)
        (visit_schedule_keeps t d d.schedule s k)

  pub tick_keeps : (s : System P) → K s → K (tick s).0
  unfolding tick
  tick_keeps s k =
      visit_all_keeps (s.times s.reads) (Dict.values s.tasks) (record s { reads = suc s.reads })
        (reads s k)

module _ {V : Values} {P : QueueProtocol V} (L : QueueLaws P) where
  open L use {items}

  -- The invariant, with a default queue that has a name.
  pub record Keeps (s : System P) : Type 0 where
    pub inv : Inv L s
    pub named : P.default_queue s.queue ≢ ""

  module _ (s : System P) (d : TaskDef V) (t : ℕ) where
    after_due-Keeps : (key : Option String) → Keeps s → Keeps (after_due s d t key)
    after_due-Keeps key k =
        let task = due_task s d t key in
        let r = new_record "SimpleScheduler" task in
        let u = after_due s d t key in
        record {
          inv = record {
            valid = L.enqueue-IsValid task s.queue k.named k.inv.valid;
            stored = (L.enqueue_same (IsStored L u) task s.queue).1 (
              StateStore.insert_same r s.store,
              All-imp (IsStored L s) (IsStored L u) (λ x. StateStore.insert-stored r s.store x.id)
                  (items s.queue) k.inv.stored,
            );
            keyed = StateStore.insert-IsKeyed r s.store k.inv.keyed;
          };
          named = subst (λ n. n ≢ "") (sym (L.default_queue-enqueue task s.queue)) k.named;
        }

  -- Over a queue that keeps the laws of QueueLaws, a tick keeps Inv (the queue is valid, each
  -- queued task has a record, and each record stands under its own id) together with the default
  -- queue's name being not empty, whatever tasks are due and whether it ends or raises on the way.
  pub tick-Keeps : (s : System P) → Keeps s → Keeps (tick s).0
  tick-Keeps =
      tick_keeps Keeps
        (λ s k. record {
          inv = record { valid = k.inv.valid; stored = k.inv.stored; keyed = k.inv.keyed };
          named = k.named;
        })
        (λ s k. record {
          inv = record { valid = k.inv.valid; stored = k.inv.stored; keyed = k.inv.keyed };
          named = k.named;
        })
        after_due-Keeps

-- A tick leaves the locker and the settings as they are.
pub tick_leaves :
    {V : Values} {P : QueueProtocol V} (s : System P)
    → ((tick s).0.locker ≡ s.locker) × ((tick s).0.settings ≡ s.settings)
tick_leaves s =
    tick_keeps (λ u. (u.locker ≡ s.locker) × (u.settings ≡ s.settings)) (λ u k. k) (λ u k. k)
      (λ u d t key k. k) s (refl, refl)
