-- ===== src/Executor/Pending.antt =====
-- What the loops over the pending tasks keep, and how a task that leaves the queue is settled: its
-- record, and no other, is replaced.
use tlo.Prelude.{
  String, ℕ, suc, ◌≤◌, ◌≡◌, ◌≢◌, refl, false, none, some, All, All-imp, length, if_pos, if_neg,
  text_dec, ite, arith, subst, ◌∙◌, sym, ap,
}
use tlo.Prelude.Dict
use tlo.Errors.{Action}
use tlo.Task.{Values, QueuedTask, TaskStateRecord}
use tlo.StateStore
use tlo.Locking.{is_locked}
use tlo.System.{QueueProtocol, System}
use tlo.QueueLaws.{QueueLaws, Gives, Declines}
use tlo.Executor.Sweep.{Measure}

module _ {V : Values} {P : QueueProtocol V} (L : QueueLaws P) where
  open L use {items, holds, IsValid}

  abbrev pub IsStored : System P → QueuedTask V → Type 0
  IsStored s t = (r : TaskStateRecord V) × (Dict.lookup t.id s.store ≡ some r)

  -- Each queued task has a record, and each record stands under its own id.
  pub record Inv (s : System P) : Type 0 where
    pub valid : IsValid s.queue
    pub stored : All (IsStored s) (items s.queue)
    pub keyed : StateStore.IsKeyed s.store

  module _ (IsEnd : TaskStateRecord V → Type 0) where
    -- The task of an id has come to its end.
    abbrev pub IsDone : System P → String → Type 0
    IsDone s id = (r : TaskStateRecord V) × (Dict.lookup id s.store ≡ some r) × IsEnd r

    -- From one state to a later one: what is done stays so, a task that has left the queue is done,
    -- the record of an id that is not queued is as it was, the executor runs or does not run as
    -- before, the clock is read on, and a key that was free is free.
    pub record Evolves (s u : System P) : Type 1 where
      pub keeps : (id : String) → IsDone s id → IsDone u id
      pub covers :
          (R : QueuedTask V → Type 0)
          → ((t : QueuedTask V) → IsDone u t.id → R t)
          → All R (items u.queue)
          → All R (items s.queue)
      pub others :
          (id : String)
          → All (λ t. t.id ≢ id) (items s.queue)
          → All (λ t. t.id ≢ id) (items u.queue) × (Dict.lookup id u.store ≡ Dict.lookup id s.store)
      pub same_running : u.running ≡ s.running
      pub same_times : u.times ≡ s.times
      pub same_settings : u.settings ≡ s.settings
      pub same_default : P.default_queue u.queue ≡ P.default_queue s.queue
      pub later : s.reads ≤ u.reads
      pub frees : (key : String) → is_locked key s.locker ≡ false → is_locked key u.locker ≡ false

    pub Evolves-refl : (s : System P) → Evolves s s
    Evolves-refl s = record {
      keeps = λ id c. c;
      covers = λ R f a. a;
      others = λ id a. (a, refl);
      same_running = refl;
      same_times = refl;
      same_settings = refl;
      same_default = refl;
      later = omega arith;
      frees = λ key h. h;
    }

    pub Evolves-trans : {s t u : System P} → Evolves s t → Evolves t u → Evolves s u
    Evolves-trans e f = record {
      keeps = λ id c. f.keeps id (e.keeps id c);
      covers = λ R g a. e.covers R (λ t c. g t (f.keeps t.id c)) (f.covers R g a);
      others = λ id a. let (b, p) = e.others id a in let (c, q) = f.others id b in (c, q ∙ p);
      same_running = f.same_running ∙ e.same_running;
      same_times = f.same_times ∙ e.same_times;
      same_settings = f.same_settings ∙ e.same_settings;
      same_default = f.same_default ∙ e.same_default;
      later = omega (arith, e.later, f.later);
      frees = λ key h. f.frees key (e.frees key h);
    }

    -- The loops count the queued tasks down.
    abbrev pub pending : (System P → Type 0) → Measure P
    pending Keeps = record {
      count = λ s. length (items s.queue);
      Keeps = Keeps;
      Evolves = Evolves;
      evolves_refl = Evolves-refl;
      evolves_trans = Evolves-trans;
    }

    -- A task is out of the queue, and its record is at its end.
    pub record Settles (s : System P) (task : QueuedTask V) (rest : P.Queue) (u : System P)
        : Type 0 where
      pub done : TaskStateRecord V
      pub same_id : done.id ≡ task.id
      pub is_end : IsEnd done
      pub queue_is : u.queue ≡ rest
      pub store_is :
          (id : String)
          → Dict.lookup id u.store ≡ ite (text_dec done.id id) (some done) (Dict.lookup id s.store)
      pub still_running : u.running ≡ s.running
      pub still_times : u.times ≡ s.times
      pub still_settings : u.settings ≡ s.settings
      pub later : s.reads ≤ u.reads
      pub still_free :
          (key : String) → is_locked key s.locker ≡ false → is_locked key u.locker ≡ false

    module _ {call : Action P.Queue (QueuedTask V)} {s u : System P} (k : Gives items call s.queue)
        (w : Settles s k.task k.rest u) where
      settled-IsDone : (id : String) → k.task.id ≡ id → IsDone u id
      settled-IsDone id p =
          (w.done, w.store_is id ∙ if_pos (text_dec w.done.id id) (w.same_id ∙ p) _ _, w.is_end)

      settles-keeps : (id : String) → IsDone s id → IsDone u id
      settles-keeps id (r, l, d) = elim (text_dec k.task.id id) [
        | yes p ↦ settled-IsDone id p
        | no p ↦ (
          r,
          w.store_is id ∙ if_neg (text_dec w.done.id id) (λ q. p (sym w.same_id ∙ q)) _ _ ∙ l,
          d,
        )
      ]

      settles-IsStored : (t : QueuedTask V) → IsStored s t → IsStored u t
      settles-IsStored t (r, l) = elim (text_dec w.done.id t.id) [
        | yes p ↦ (w.done, w.store_is t.id ∙ if_pos (text_dec w.done.id t.id) p _ _)
        | no p ↦ (r, w.store_is t.id ∙ if_neg (text_dec w.done.id t.id) p _ _ ∙ l)
      ]

      settles-IsKeyed : StateStore.IsKeyed s.store → StateStore.IsKeyed u.store
      settles-IsKeyed keyed id r l = elim (text_dec w.done.id id) [
        | yes p ↦
            let e = sym (w.store_is id ∙ if_pos (text_dec w.done.id id) p _ _) ∙ l in
            sym (ap (λ x. elim x [ some o ↦ o.id | none ↦ id ]) e) ∙ p
        | no p ↦ keyed id r (sym (w.store_is id ∙ if_neg (text_dec w.done.id id) p _ _) ∙ l)
      ]

      pub settles-Inv : IsValid k.rest → Inv s → Inv u
      settles-Inv v i = record {
        valid = subst IsValid (sym w.queue_is) v;
        stored =
            subst (λ q. All (IsStored u) (items q)) (sym w.queue_is)
              (All-imp (IsStored s) (IsStored u) settles-IsStored (items k.rest)
                ((k.same (IsStored s)).0 i.stored).1);
        keyed = settles-IsKeyed i.keyed;
      }

      pub settles-Evolves : P.default_queue k.rest ≡ P.default_queue s.queue → Evolves s u
      settles-Evolves same = record {
        keeps = settles-keeps;
        covers = λ R g a.
            (k.same R).1
              (g k.task (settled-IsDone k.task.id refl), subst (λ q. All R (items q)) w.queue_is a);
        others = λ id a.
            let (ne, rest) = (k.same (λ t. t.id ≢ id)).0 a in
            (
              subst (λ q. All (λ t. t.id ≢ id) (items q)) (sym w.queue_is) rest,
              w.store_is id ∙ if_neg (text_dec w.done.id id) (λ p. ne (sym w.same_id ∙ p)) _ _,
            );
        same_running = w.still_running;
        same_times = w.still_times;
        same_settings = w.still_settings;
        same_default = ap P.default_queue w.queue_is ∙ same;
        later = w.later;
        frees = w.still_free;
      }

      pub settles-fewer : length (items s.queue) ≡ suc (length (items u.queue))
      settles-fewer = k.fewer ∙ ap (λ q. suc (length (items q))) (sym w.queue_is)

    -- The queue has no task to give; nothing but the clock may have changed.
    module _ (s : System P) {call : Action P.Queue (QueuedTask V)}
        (k : Declines items holds call s.queue) (reads : ℕ) where
      abbrev pub declined : System P
      declined = record s { queue = k.rest; reads = reads }

      pub declined-Inv : IsValid k.rest → Inv s → Inv declined
      declined-Inv v i = record { valid = v; stored = rw k.same i.stored; keyed = i.keyed }

      pub declined-Evolves :
          s.reads ≤ reads → P.default_queue k.rest ≡ P.default_queue s.queue → Evolves s declined
      declined-Evolves h same = record {
        keeps = λ id c. c;
        covers = λ R f a. subst (All R) k.same a;
        others = λ id a. (rw k.same a, refl);
        same_running = refl;
        same_times = refl;
        same_settings = refl;
        same_default = same;
        later = h;
        frees = λ key h. h;
      }
