-- ===== src/Scheduler/Ticks.antt =====
-- A whole tick: each task that is due is enqueued once, in the order of the registry.
use tlo.Prelude.{
  String, ℕ, suc, ◌≡◌, ◌≢◌, refl, ◌∙◌, ap, sym, inl, inr, true, false, Option, some, List, [], ◌∷◌,
  All, All-both, map, text_dec, if_pos, if◌then◌else◌,
}
use tlo.Prelude.Dict
use tlo.Errors.{Result, ok, then_do}
use tlo.Task.{Values, QueuedTask, TaskStateRecord}
use tlo.Registry.{TaskDef}
use tlo.System.{QueueProtocol, System}
use tlo.Scheduler.{new_record, visit, visit_all, tick}
use tlo.Scheduler.Rate.{due_task, after_due}
use tlo.Scheduler.Due.{
  passes, is_due, GoesWell, HasFreshIds, Visit-cases, last_run_after, own_last_run, verdict_after,
  after_due-HasFreshIds, store_after,
}

-- The tasks of a list enqueued one by one.
abbrev pub enqueue_all :
    {V : Values} (P : QueueProtocol V) → List (QueuedTask V) → P.Queue → P.Queue
enqueue_all P [] q = q
enqueue_all P (t ∷ ts) q = enqueue_all P ts (P.enqueue t q)

abbrev pub HasDistinctNames : {V : Values} → List (TaskDef V) → Type 0
HasDistinctNames [] = Unit
HasDistinctNames (d ∷ ds) = All (λ e. e.name ≢ d.name) ds × HasDistinctNames ds

module _ {V : Values} {P : QueueProtocol V} where
  abbrev pub due_names : System P → ℕ → List (TaskDef V) → List String
  due_names s t [] = []
  due_names s t (d ∷ ds) =
      let rest = due_names s t ds in if is_due s t d then d.name ∷ rest else rest

  -- What the visits to some definitions do to the state.
  record Ticked (s : System P) (t : ℕ) (ds : List (TaskDef V)) (r : System P × Result (Unit {0}))
      : Type 0 where
    state : System P
    tasks : List (QueuedTask V)
    ends : r ≡ (state, ok tt)
    names : map (λ q. q.task_name) tasks ≡ due_names s t ds
    queue_is : state.queue ≡ enqueue_all P tasks s.queue
    recorded : All (λ q. Dict.lookup q.id state.store ≡ some (new_record "SimpleScheduler" q)) tasks
    last_runs :
        All
          (λ d.
            Dict.lookup d.name state.last_run
            ≡ (if is_due s t d then some t else Dict.lookup d.name s.last_run))
          ds
    others :
        (name : String)
        → All (λ d. d.name ≢ name) ds
        → Dict.lookup name state.last_run ≡ Dict.lookup name s.last_run
    keeps :
        (id : String) (o : TaskStateRecord V)
        → Dict.lookup id s.store ≡ some o
        → Dict.lookup id state.store ≡ some o

  -- Past a definition that is not due.
  passed_over :
      (s : System P) (t : ℕ) (d : TaskDef V) (ds : List (TaskDef V))
      → All (λ e. e.name ≢ d.name) ds
      → is_due s t d ≡ false
      → visit t d s ≡ (s, ok tt)
      → Ticked s t ds (visit_all t ds s)
      → Ticked s t (d ∷ ds) (visit_all t (d ∷ ds) s)
  unfolding visit_all
  passed_over s t d ds ne n e w = record {
    state = w.state;
    tasks = w.tasks;
    ends = ap (then_do (λ _. visit_all t ds)) e ∙ w.ends;
    names = rw n w.names;
    queue_is = w.queue_is;
    recorded = w.recorded;
    last_runs = (rw n (w.others d.name ne), w.last_runs);
    others = λ name a. w.others name a.1;
    keeps = w.keeps;
  }

  due_names_after :
      (s : System P) (t : ℕ) (d : TaskDef V) (key : Option String) (ds : List (TaskDef V))
      → All (λ e. e.name ≢ d.name) ds
      → due_names (after_due s d t key) t ds ≡ due_names s t ds
  due_names_after s t d key [] h = refl
  due_names_after s t d key (e ∷ ds) h = rw (due_names_after s t d key ds h.1) (
      ap (λ v. if passes v then e.name ∷ due_names s t ds else due_names s t ds)
        (verdict_after s t d key e h.0))

  submitted_one :
      (s : System P) (t : ℕ) (d : TaskDef V) (key : Option String) (ds : List (TaskDef V))
      → HasFreshIds s
      → All (λ e. e.name ≢ d.name) ds
      → is_due s t d ≡ true
      → visit t d s ≡ (after_due s d t key, ok tt)
      → Ticked (after_due s d t key) t ds (visit_all t ds (after_due s d t key))
      → Ticked s t (d ∷ ds) (visit_all t (d ∷ ds) s)
  unfolding visit_all
  submitted_one s t d key ds f ne n e w = record {
    state = w.state;
    tasks = due_task s d t key ∷ w.tasks;
    ends = ap (then_do (λ _. visit_all t ds)) e ∙ w.ends;
    names = rw n (ap (λ ns. d.name ∷ ns) (w.names ∙ due_names_after s t d key ds ne));
    queue_is = w.queue_is;
    recorded = (
      w.keeps (s.uuids s.drawn) _ (
          Dict.lookup-insert (s.uuids s.drawn) (s.uuids s.drawn) _ s.store
          ∙ if_pos (text_dec (s.uuids s.drawn) (s.uuids s.drawn)) refl _ _),
      w.recorded,
    );
    last_runs = (
      rw n (w.others d.name ne ∙ own_last_run s t d key),
      All-both _ _ _ (λ x l k. l ∙ same x k) ds w.last_runs ne,
    );
    others = λ name a. w.others name a.1 ∙ last_run_after s t d key name (λ p. a.0 (sym p));
    keeps = λ id o l. w.keeps id o (store_after s t d key id o f l);
  }
    where
      same :
          (x : TaskDef V)
          → x.name ≢ d.name
          → (if is_due (after_due s d t key) t x
              then some t
              else Dict.lookup x.name (after_due s d t key).last_run)
            ≡ (if is_due s t x then some t else Dict.lookup x.name s.last_run)
      same x k = rw (verdict_after s t d key x k, last_run_after s t d key x.name k) refl

  still_well :
      (s : System P) (t : ℕ) (d : TaskDef V) (key : Option String) (e : TaskDef V)
      → GoesWell s t e
      → e.name ≢ d.name
      → GoesWell (after_due s d t key) t e
  still_well s t d key e (inl v) ne = inl (verdict_after s t d key e ne ∙ v)
  still_well s t d key e (inr (v, k)) ne = inr (verdict_after s t d key e ne ∙ v, k)

  visit_all-Ticked :
      (ds : List (TaskDef V)) (s : System P) (t : ℕ)
      → HasFreshIds s
      → HasDistinctNames ds
      → All (GoesWell s t) ds
      → Ticked s t ds (visit_all t ds s)
  unfolding visit_all
  visit_all-Ticked [] s t f ne h = record {
    state = s;
    tasks = [];
    ends = refl;
    names = refl;
    queue_is = refl;
    recorded = tt;
    last_runs = tt;
    others = λ name a. refl;
    keeps = λ id o l. l;
  }
  visit_all-Ticked (d ∷ ds) s t f ne h = elim (Visit-cases s t d f h.0) [
    | inl (n, e) ↦ passed_over s t d ds ne.0 n e (visit_all-Ticked ds s t f ne.1 h.1)
    | inr (n, (key, e)) ↦ submitted_one s t d key ds f ne.0 n e (
        visit_all-Ticked ds (after_due s d t key) t (after_due-HasFreshIds s t d key f) ne.1
          (All-both _ _ _ (still_well s t d key) ds h.1 ne.0))
  ]

  -- Where the ids that are drawn from here on are new and differ from each other, no two registered
  -- tasks have the same name, and each registered task is not due, or is due and its exclusive key
  -- renders, a tick succeeds. It enqueues one task for each that is due, one by one in the order of
  -- the registry, and each of these has its pending record under its id; the last run of a task
  -- that is due becomes the time of the tick, and every other last run is as it was.
  pub tick_lem :
      (s : System P)
      → HasFreshIds s
      → HasDistinctNames (Dict.values s.tasks)
      → All (GoesWell s (s.times s.reads)) (Dict.values s.tasks)
      → (u : System P) × (tasks : List (QueuedTask V)) × (tick s ≡ (u, ok tt))
        × (map (λ q. q.task_name) tasks ≡ due_names s (s.times s.reads) (Dict.values s.tasks))
        × (u.queue ≡ enqueue_all P tasks s.queue)
        × All (λ q. Dict.lookup q.id u.store ≡ some (new_record "SimpleScheduler" q)) tasks
        × All
            (λ d. Dict.lookup d.name u.last_run ≡ (
              if is_due s (s.times s.reads) d
              then some (s.times s.reads)
              else Dict.lookup d.name s.last_run))
            (Dict.values s.tasks)
        × ((name : String)
            → All (λ d. d.name ≢ name) (Dict.values s.tasks)
            → Dict.lookup name u.last_run ≡ Dict.lookup name s.last_run)
  unfolding tick
  tick_lem s f ne h =
      let w =
        visit_all-Ticked (Dict.values s.tasks) (record s { reads = suc s.reads }) (s.times s.reads)
          (record { new = f.new; different = f.different }) ne h in
      (w.state, w.tasks, w.ends, w.names, w.queue_is, w.recorded, w.last_runs, w.others)
