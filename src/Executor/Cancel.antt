-- ===== src/Executor/Cancel.antt =====
-- One task in the loop that cancels the pending tasks.
pub mod Sweeps
pub mod Stop
use tlo.Prelude.{String, ℕ, zero, suc, ◌≡◌, refl, true, false, ◌==◌, inl, inr, some, arith, ◌∙◌, ap}
use tlo.Prelude.Dict
use tlo.Errors.{ok, skip_if_empty}
use tlo.Task.{Values, QueuedTask, TaskStateRecord, cancelled}
use tlo.StateStore
use tlo.System.{QueueProtocol, System}
use tlo.QueueLaws.{QueueLaws, Takes, Refuses}
use tlo.Executor.{get_record, cancel_task, cancel_one}
use tlo.Executor.Sweep.{Swept, unchanged}
use tlo.Executor.Pending.{
  Inv, Settles, pending, settles-Inv, settles-Evolves, settles-fewer, declined-Inv,
  declined-Evolves,
}

pub suc_ne_zero : (n : ℕ) → (suc n == 0) ≡ false
suc_ne_zero n = ground arith

module _ {V : Values} where
  -- A record that is cancelled, with a time of finishing.
  abbrev pub IsCancelledRecord : TaskStateRecord V → Type 0
  IsCancelledRecord r = (f : ℕ) × (r.status ≡ cancelled) × (r.finished_at ≡ some f)

module _ {V : Values} {P : QueueProtocol V} (L : QueueLaws P) where
  open L use {items, holds}

  abbrev pub IsCancelled : System P → String → Type 0
  IsCancelled s id =
      (r : TaskStateRecord V) × (f : ℕ) × (Dict.lookup id s.store ≡ some r)
      × (r.status ≡ cancelled)
      × (r.finished_at ≡ some f)

  abbrev cancelled_record : System P → TaskStateRecord V → TaskStateRecord V
  cancelled_record s r = record r { finished_at = some (s.times s.reads); status = cancelled }

  abbrev after_cancel : System P → TaskStateRecord V → System P
  after_cancel s r = record s {
    reads = suc s.reads;
    store = Dict.insert r.id (cancelled_record s r) s.store;
  }

  cancel_task_lem :
      (task : QueuedTask V) (s : System P) (r : TaskStateRecord V)
      → Dict.lookup task.id s.store ≡ some r
      → Dict.lookup r.id s.store ≡ some r
      → cancel_task task s ≡ (after_cancel s r, ok true)
  unfolding cancel_task get_record
  cancel_task_lem task s r e f =
      rw
        (
          StateStore.get_stored task.id s.store e,
          StateStore.update_stored (cancelled_record s r) s.store f,
        )
        refl

  -- A record that is cancelled is at its end.
  module _ (IsEnd : TaskStateRecord V → Type 0)
      (ends : (r : TaskStateRecord V) → IsCancelledRecord r → IsEnd r) (s : System P)
      (name : String) where
    module _ (n : ℕ) where
      taken_lem :
          (k : Takes P items name s.queue) (r : TaskStateRecord V)
          → Dict.lookup k.task.id s.store ≡ some r
          → Dict.lookup r.id s.store ≡ some r
          → cancel_one (name, suc n) s ≡ (after_cancel (record s { queue = k.rest }) r, ok true)
      unfolding cancel_one
      taken_lem k r e f =
          rw (suc_ne_zero n, k.taken) (cancel_task_lem k.task (record s { queue = k.rest }) r e f)

      refused_lem :
          (k : Refuses P items name holds s.queue)
          → cancel_one (name, suc n) s ≡ (record s { queue = k.rest }, ok false)
      unfolding cancel_one skip_if_empty
      refused_lem k = rw (suc_ne_zero n, k.empty) refl

    cancel_task-Settles :
        (i : Inv L s) (k : Takes P items name s.queue) (r : TaskStateRecord V)
        → Dict.lookup k.task.id s.store ≡ some r
        → Settles L IsEnd s k.task k.rest (after_cancel (record s { queue = k.rest }) r)
    cancel_task-Settles i k r e = record {
      done = cancelled_record s r;
      same_id = i.keyed k.task.id r e;
      is_end = ends (cancelled_record s r) (s.times s.reads, refl, refl);
      queue_is = refl;
      store_is = λ id. Dict.lookup-insert r.id id (cancelled_record s r) s.store;
      still_running = refl;
      still_times = refl;
      still_settings = refl;
      later = omega arith;
      still_free = λ key h. h;
    }

    module _ (n : ℕ) (i : Inv L s) where
      pub one_taken :
          Takes P items name s.queue
          → (w : Swept (pending L IsEnd (Inv L)) false s (cancel_one (name, suc n) s)) × (w.made
              ≡ true)
      one_taken k =
          let (r, e) = ((k.same _).0 i.stored).0 in
          let w = cancel_task-Settles i k r e in
          let valid = rw k.taken at (L.dequeue_any-IsValid name s.queue i.valid) in
          let less = settles-fewer L IsEnd k w in
          (
            record {
              state = after_cancel (record s { queue = k.rest }) r;
              made = true;
              ends = taken_lem n k r e (ap (λ x. Dict.lookup x s.store) (i.keyed _ r e) ∙ e);
              keeps = settles-Inv L IsEnd k w valid i;
              evolves =
                  settles-Evolves L IsEnd k w
                    (rw k.taken at (L.default_queue-dequeue_any name s.queue));
              fewer = omega (arith, less);
              gains = λ _. inr (omega (arith, less));
              stays = λ h. refl;
            },
            refl,
          )

      one_refused :
          Refuses P items name holds s.queue
          → Swept (pending L IsEnd (Inv L)) false s (cancel_one (name, suc n) s)
      one_refused k = record {
        state = record s { queue = k.rest };
        made = false;
        ends = refused_lem n k;
        keeps =
            declined-Inv L IsEnd s k s.reads
              (rw k.empty at (L.dequeue_any-IsValid name s.queue i.valid)) i;
        evolves =
            declined-Evolves L IsEnd s k s.reads (omega arith)
              (rw k.empty at (L.default_queue-dequeue_any name s.queue));
        fewer = rw k.same (omega arith);
        gains = λ h. absurd (ground (arith, h));
        stays = λ h. h;
      }

  module _ (IsEnd : TaskStateRecord V → Type 0)
      (ends : (r : TaskStateRecord V) → IsCancelledRecord r → IsEnd r) where
    pub cancel_one-Swept :
        (s : System P) (e : String × ℕ)
        → Inv L s
        → Swept (pending L IsEnd (Inv L)) false s (cancel_one e s)
    unfolding cancel_one
    cancel_one-Swept s (name, suc n) i = elim (L.dequeue_any_cases name s.queue) [
      | inl k ↦ (one_taken IsEnd ends s name n i k).0
      | inr k ↦ one_refused IsEnd ends s name n i k
    ]
    cancel_one-Swept s (name, zero) i = unchanged (pending L IsEnd (Inv L)) false s i
