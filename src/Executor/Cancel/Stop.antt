-- ===== src/Executor/Cancel/Stop.antt =====
-- What `stop` leaves behind when it cancels.
use tlo.Prelude.{String, ℕ, ◌<◌, ◌≡◌, ◌≢◌, Bool, false, some, [], All, length, if◌then◌else◌}
use tlo.Prelude.Dict
use tlo.Errors.{ok}
use tlo.Task.{Values}
use tlo.System.{QueueProtocol, System, cancel}
use tlo.QueueLaws.{QueueLaws}
use tlo.Executor.{Calls, stop, handle_stop_pending}
use tlo.Executor.Pending.{Inv}
use tlo.Executor.Cancel.{IsCancelled, IsCancelledRecord}
use tlo.Executor.Cancel.Sweeps.{cancel_pending_tasks-Evolves, IsDone-IsCancelled}

module _ {V : Values} {P : QueueProtocol V} (L : QueueLaws P) where
  open L use {items}

  -- Over a queue that keeps the laws of QueueLaws, in a state that keeps Inv (the queue is valid,
  -- each queued task has a record, and each record stands under its own id), stop ends without an
  -- exception if it is called to cancel or the settings say so, within as many rounds of the
  -- cancelling loop as there are queued tasks, and one. Behind it the executor does not run and the
  -- queue is empty, the record of each task that was queued is cancelled with a time of finishing,
  -- and the record of every other id is as it was.
  pub stop_lem :
      (calls : Calls P) (fuel : ℕ) (cancel_requested : Bool) (s : System P)
      → Inv L s
      → (if cancel_requested then cancel else s.settings.stop_behavior) ≡ cancel
      → length (items s.queue) < fuel
      → (u : System P) × (stop calls fuel cancel_requested s ≡ some (u, ok tt))
        × (u.running ≡ false)
        × (items u.queue ≡ [])
        × All (λ t. IsCancelled L u t.id) (items s.queue)
        × ((id : String)
            → All (λ t. t.id ≢ id) (items s.queue)
            → Dict.lookup id u.store ≡ Dict.lookup id s.store)
  unfolding stop handle_stop_pending
  stop_lem calls fuel cancel_requested s i b h =
      let stopped : System P = record s { running = false } in
      let j : Inv L stopped = record { valid = i.valid; stored = i.stored; keyed = i.keyed } in
      let (u, e, none_left, v) =
        cancel_pending_tasks-Evolves L IsCancelledRecord (λ r c. c) fuel stopped j h in
      (
        u,
        rw (stop, handle_stop_pending, b) e,
        v.same_running,
        none_left,
        v.covers (λ t. IsCancelled L u t.id) (λ t c. IsDone-IsCancelled L u t.id c)
            (rw none_left tt),
        λ id a. (v.others id a).1,
      )
