-- ===== src/Executor/Drain/Ends.antt =====
-- What `_drain_queue`, and `stop` where it drains, leave behind.
use tlo.Prelude.{
  String, ℕ, ◌≤◌, ◌<◌, ◌≡◌, ◌≢◌, refl, Bool, false, ◌⊎◌, inl, inr, some, List, [], ◌∷◌, All,
  All-imp, All-both, length, text_dec, if◌then◌else◌, arith, ◌∙◌, subst,
}
use tlo.Prelude.Dict
use tlo.Errors.{ok}
use tlo.Task.{Values, QueuedTask, TaskStateRecord}
use tlo.Queue.Order.{is_eligible}
use tlo.System.{QueueProtocol, System, cancel, drain}
use tlo.QueueLaws.{QueueLaws}
use tlo.Executor.{Calls, drain_queue, stop, handle_stop_pending}
use tlo.Executor.Cancel.{IsCancelled, IsCancelledRecord}
use tlo.Executor.Cancel.Sweeps.{cancel_pending_tasks-Evolves, IsDone-IsCancelled}
use tlo.Executor.Pending.{Inv, Evolves}
use tlo.Executor.Drain.{LeavesSystem, IsRunRecord}
use tlo.Executor.Drain.Sweeps.{Ready}
use tlo.Executor.Drain.Waits.{Waits, drain_queue-Evolves}

module _ {V : Values} {P : QueueProtocol V} where
  -- The record of an id is that of a task that has run.
  abbrev pub HasRun : System P → String → Type 0
  HasRun s id = (r : TaskStateRecord V) × (Dict.lookup id s.store ≡ some r) × IsRunRecord r

not_yet :
    {V : Values} (earlier later : ℕ) (t : QueuedTask V)
    → earlier ≤ later
    → is_eligible later t ≡ false
    → is_eligible earlier t ≡ false
unfolding is_eligible
not_yet earlier later t h w = ground (arith, h, w)

-- No task of a list has an id, or one with what holds of all.
find_id :
    {V : Values} (R : QueuedTask V → Type 0) (id : String) (ts : List (QueuedTask V))
    → All R ts
    → All (λ t. t.id ≢ id) ts ⊎ ((t : QueuedTask V) × (t.id ≡ id) × R t)
find_id R id [] h = inl tt
find_id R id (t ∷ ts) h = elim (text_dec t.id id) [
  | yes p ↦ inr (t, p, h.0)
  | no p ↦ elim (find_id R id ts h.1) [ inl a ↦ inl (p, a) | inr x ↦ inr x ]
]

module _ {V : Values} {P : QueueProtocol V} (L : QueueLaws P) where
  open L use {items}

  -- What is left of a task behind a stop that drains: it has run, or it is cancelled, where a task
  -- of its id had to wait.
  abbrev pub Stopped : System P → System P → String → Type 0
  Stopped s u id =
      HasRun u id ⊎ (IsCancelled L u id × ((t : QueuedTask V) × (t.id ≡ id) × Waits s t))

  -- Behind the cancelling a task that had run has run, unless its id was queued still.
  stays_run :
      (s d u : System P)
      → Evolves L IsCancelledRecord d u
      → All (λ t. IsCancelled L u t.id × Waits s t) (items d.queue)
      → (t : QueuedTask V) → HasRun d t.id
      → Stopped s u t.id
  stays_run s d u w left t (r, l, x) = elim (find_id _ t.id (items d.queue) left) [
    | inl a ↦ inl (r, (w.others t.id a).1 ∙ l, x)
    | inr (o, p, (c, y)) ↦ inr (subst (IsCancelled L u) p c, (o, p, y))
  ]

module _ {V : Values} {P : QueueProtocol V} (L : QueueLaws P) (calls : Calls P) where
  open L use {items}

  -- Over a queue that keeps the laws of QueueLaws, in a state that is Ready (the queue is valid,
  -- each queued task has a record, each record stands under its own id, and no queued task's
  -- exclusive key is held), where the tasks' functions leave records, queue, locker, settings and
  -- the executor's flag as they are and only read the clock, the loop of _drain_queue ends without
  -- an exception within as many rounds as there are queued tasks, and one, in a state that is Ready
  -- again. Each task that was queued has run, with its times, a result and the status succeeded or
  -- failed, or was not eligible at a reading of the clock from the start of the loop on; each task
  -- that is queued still was not eligible at such a reading; and the record of every other id is as
  -- it was.
  pub drain_queue_lem :
      LeavesSystem calls
      → (fuel : ℕ) (s : System P) → Ready L s
      → length (items s.queue) < fuel
      → (u : System P) × (drain_queue calls fuel s ≡ some (u, ok tt))
        × Ready L u
        × All (λ t. HasRun u t.id ⊎ Waits s t) (items s.queue)
        × All (Waits s) (items u.queue)
        × ((id : String)
            → All (λ t. t.id ≢ id) (items s.queue)
            → Dict.lookup id u.store ≡ Dict.lookup id s.store)
  drain_queue_lem leaves fuel s i h =
      let (u, e, ready, _, v, waits) =
        drain_queue-Evolves L IsRunRecord (λ r x. x) calls leaves fuel s i h in
      (
        u,
        e,
        ready,
        v.covers (λ t. HasRun u t.id ⊎ Waits s t) (λ t x. inl x)
            (All-imp (Waits s) _ (λ t x. inr x) (items u.queue) waits),
        waits,
        λ id a. (v.others id a).1,
      )

  -- Over a queue that keeps the laws of QueueLaws, in a state that is Ready (the queue is valid,
  -- each queued task has a record, each record stands under its own id, and no queued task's
  -- exclusive key is held), where the tasks' functions leave records, queue, locker, settings and
  -- the executor's flag as they are and only read the clock, and where the clock does not go back,
  -- the loop of _drain_queue ends without an exception within as many rounds as there are queued
  -- tasks, and one; each task that was queued then has run, with its times, a result and the status
  -- succeeded or failed, unless it was not eligible at the first reading of the clock.
  pub drain_queue-eligible :
      LeavesSystem calls
      → (fuel : ℕ) (s : System P) → Ready L s
      → ((i j : ℕ) → i ≤ j → s.times i ≤ s.times j)
      → length (items s.queue) < fuel
      → (u : System P) × (drain_queue calls fuel s ≡ some (u, ok tt))
        × All (λ t. HasRun u t.id ⊎ (is_eligible (s.times s.reads) t ≡ false)) (items s.queue)
  drain_queue-eligible leaves fuel s i clock h =
      let (u, e, _, all, _, _) = drain_queue_lem leaves fuel s i h in
      (u, e, All-imp _ _ (λ t x. waited t u x) (items s.queue) all)
    where
      waited :
          (t : QueuedTask V) (u : System P)
          → HasRun u t.id ⊎ Waits s t
          → HasRun u t.id ⊎ (is_eligible (s.times s.reads) t ≡ false)
      waited t u (inl x) = inl x
      waited t u (inr (i, h, w)) =
          inr (not_yet (s.times s.reads) (s.times i) t (clock s.reads i h) w)

  -- Over a queue that keeps the laws of QueueLaws, in a state that is Ready (the queue is valid,
  -- each queued task has a record, each record stands under its own id, and no queued task's
  -- exclusive key is held), where the tasks' functions leave records, queue, locker, settings and
  -- the executor's flag as they are and only read the clock, a stop that is to drain ends without
  -- an exception within as many rounds of each loop as there are queued tasks, and one. Behind it
  -- the executor does not run and the queue is empty; each task that was queued has run, with its
  -- times, a result and the status succeeded or failed, or it is cancelled with a time of
  -- finishing, where a task of its id was not eligible at a reading of the clock from the stop on.
  -- The record of every other id is as it was.
  pub stop_drain_lem :
      LeavesSystem calls
      → (fuel : ℕ) (cancel_requested : Bool) (s : System P) → Ready L s
      → (if cancel_requested then cancel else s.settings.stop_behavior) ≡ drain
      → length (items s.queue) < fuel
      → (u : System P) × (stop calls fuel cancel_requested s ≡ some (u, ok tt))
        × (u.running ≡ false)
        × (items u.queue ≡ [])
        × All (λ t. Stopped L s u t.id) (items s.queue)
        × ((id : String)
            → All (λ t. t.id ≢ id) (items s.queue)
            → Dict.lookup id u.store ≡ Dict.lookup id s.store)
  unfolding stop handle_stop_pending
  stop_drain_lem leaves fuel cancel_requested s i b h =
      let stopped : System P = record s { running = false } in
      let inv : Inv L stopped = record {
        valid = i.inv.valid;
        stored = i.inv.stored;
        keyed = i.inv.keyed;
      } in
      let (d, e, ready, fewer, v, waits) =
        drain_queue-Evolves L IsRunRecord (λ r x. x) calls leaves fuel stopped
          (record { inv = inv; free = i.free }) h in
      let (u, f, none_left, w) =
        cancel_pending_tasks-Evolves L IsCancelledRecord (λ r x. x) fuel d ready.inv
          (omega (arith, fewer, h)) in
      let left =
        All-both _ _ (λ t. IsCancelled L u t.id × Waits s t) (λ t c x. (c, x)) (items d.queue)
          (w.covers (λ t. IsCancelled L u t.id) (λ t c. IsDone-IsCancelled L u t.id c)
            (rw none_left tt))
          waits in
      (
        u,
        rw (stop, handle_stop_pending, b, e) f,
        w.same_running ∙ v.same_running,
        none_left,
        v.covers (λ t. Stopped L s u t.id) (stays_run L s d u w left)
            (All-imp _ _ (λ t (c, x). inr (c, (t, refl, x))) (items d.queue) left),
        λ id a. let (c, p) = v.others id a in (w.others id c).1 ∙ p,
      )
