-- ===== src/Executor/Drain/Sweeps.antt =====
-- The loop of `_drain_queue`: it ends, and a task that has left the queue has run.
use tlo.Prelude.{
  String, ℕ, zero, suc, ◌<◌, ◌≡◌, refl, true, false, inl, inr, Option, none, some, All, All-imp,
  length, arith, ◌∙◌, sym, subst,
}
use tlo.Errors.{Result, ok, skip_if_empty}
use tlo.Locking.{is_locked}
use tlo.Task.{Values, QueuedTask, TaskStateRecord}
use tlo.System.{QueueProtocol, System}
use tlo.QueueLaws.{QueueLaws, Gives, Declines}
use tlo.Executor.{Calls, execute, drain_one}
use tlo.Executor.Sweep.{Swept, SweptUp, sweeps, unchanged}
use tlo.Executor.Pending.{
  Inv, Settles, pending, settles-Inv, settles-Evolves, settles-fewer, declined, declined-Inv,
  declined-Evolves,
}
use tlo.Executor.Cancel.{suc_ne_zero}
use tlo.Executor.Drain.{LeavesSystem, IsFree, IsRunRecord, execute-Runs}

module _ {V : Values} {P : QueueProtocol V} (L : QueueLaws P) where
  open L use {items, holds}

  -- No queued task waits for a key that is held.
  pub record Ready (s : System P) : Type 0 where
    pub inv : Inv L s
    pub free : All (λ t. IsFree s.locker t.exclusive_key) (items s.queue)

  free_later :
      (s u : System P)
      → ((key : String) → is_locked key s.locker ≡ false → is_locked key u.locker ≡ false)
      → (o : Option String) → IsFree s.locker o
      → IsFree u.locker o
  free_later s u f none h = tt
  free_later s u f (some key) h = f key h

  abbrev pub at_time : System P → String → P.Queue → P.Queue × Result (QueuedTask V)
  at_time s name = P.dequeue (some name) (s.times s.reads)

  module _ (calls : Calls P) (s : System P) (name : String) (n : ℕ) where
    drain_taken :
        (k : Gives items (at_time s name) s.queue) (u : System P)
        → execute calls k.task (record s { reads = suc s.reads; queue = k.rest }) ≡ (u, ok tt)
        → drain_one calls (name, suc n) s ≡ (u, ok true)
    unfolding drain_one
    drain_taken k u e = rw (drain_one, suc_ne_zero n, k.taken, e) refl

    pub drain_refused :
        (k : Declines items holds (at_time s name) s.queue)
        → drain_one calls (name, suc n) s
          ≡ (record s { queue = k.rest; reads = suc s.reads }, ok false)
    unfolding drain_one skip_if_empty
    drain_refused k = rw (suc_ne_zero n, k.empty) refl

  -- A record of a task that has run is at its end.
  module _ (IsEnd : TaskStateRecord V → Type 0)
      (ends : (r : TaskStateRecord V) → IsRunRecord r → IsEnd r) (calls : Calls P)
      (leaves : LeavesSystem calls) where
    module _ (s : System P) (name : String) (n : ℕ) (i : Ready s) where
      pub one_taken :
          Gives items (at_time s name) s.queue
          → (w : Swept (pending L IsEnd Ready) false s (drain_one calls (name, suc n) s)) × (w.made
              ≡ true)
      one_taken k =
          let (r, e) = ((k.same _).0 i.inv.stored).0 in
          let (key_free, others_free) = (k.same _).0 i.free in
          let before : System P = record s { reads = suc s.reads; queue = k.rest } in
          let w =
            execute-Runs calls leaves k.task before r e (i.inv.keyed k.task.id r e) key_free in
          let v : Settles L IsEnd s k.task k.rest w.state = record {
            done = w.done;
            same_id = w.same_id ∙ i.inv.keyed k.task.id r e;
            is_end = ends w.done w.is_end;
            queue_is = w.same_queue;
            store_is = w.store_is;
            still_running = w.same_running;
            still_times = w.same_times;
            still_settings = w.same_settings;
            later = omega (arith, w.later);
            still_free = w.still_free;
          } in
          let valid =
            rw k.taken at (L.dequeue-IsValid name (s.times s.reads) s.queue i.inv.valid) in
          let less = settles-fewer L IsEnd k v in
          (
            record {
              state = w.state;
              made = true;
              ends = drain_taken calls s name n k w.state w.ends;
              keeps = record {
                inv = settles-Inv L IsEnd k v valid i.inv;
                free =
                    subst (λ q. All (λ t. IsFree w.state.locker t.exclusive_key) (items q))
                      (sym w.same_queue)
                      (All-imp _ _ (λ t. free_later s w.state w.still_free t.exclusive_key)
                        (items k.rest) others_free);
              };
              evolves =
                  settles-Evolves L IsEnd k v
                    (rw k.taken at (L.default_queue-dequeue name (s.times s.reads) s.queue));
              fewer = omega (arith, less);
              gains = λ _. inr (omega (arith, less));
              stays = λ h. refl;
            },
            refl,
          )

      pub declined-Ready :
          (k : Declines items holds (at_time s name) s.queue)
          → Ready (declined L IsEnd s k (suc s.reads))
      declined-Ready k = record {
        inv =
            declined-Inv L IsEnd s k (suc s.reads)
              (rw k.empty at (L.dequeue-IsValid name (s.times s.reads) s.queue i.inv.valid)) i.inv;
        free = rw k.same i.free;
      }

      one_refused :
          Declines items holds (at_time s name) s.queue
          → Swept (pending L IsEnd Ready) false s (drain_one calls (name, suc n) s)
      one_refused k = record {
        state = declined L IsEnd s k (suc s.reads);
        made = false;
        ends = drain_refused calls s name n k;
        keeps = declined-Ready k;
        evolves =
            declined-Evolves L IsEnd s k (suc s.reads) (omega arith)
              (rw k.empty at (L.default_queue-dequeue name (s.times s.reads) s.queue));
        fewer = rw k.same (omega arith);
        gains = λ h. absurd (ground (arith, h));
        stays = λ h. h;
      }

    pub drain_one-Swept :
        (s : System P) (e : String × ℕ)
        → Ready s
        → Swept (pending L IsEnd Ready) false s (drain_one calls e s)
    unfolding drain_one
    drain_one-Swept s (name, zero) i = unchanged (pending L IsEnd Ready) false s i
    drain_one-Swept s (name, suc n) i = elim (L.dequeue_cases name (s.times s.reads) s.queue) [
      | inl k ↦ (one_taken s name n i k).0
      | inr (k, _) ↦ one_refused s name n i k
    ]

    pub drain_queue-SweptUp :
        (fuel : ℕ) (s : System P)
        → Ready s
        → length (items s.queue) < fuel
        → SweptUp (pending L IsEnd Ready) (drain_one calls) fuel s
    drain_queue-SweptUp fuel s i h =
        sweeps (pending L IsEnd Ready) (drain_one calls) drain_one-Swept fuel s i h
