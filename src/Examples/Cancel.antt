-- ===== src/Examples/Cancel.antt =====
-- The invariant, and the loop that cancels the pending tasks, on the system with three of them.
use tlo.Prelude.{
  ◌+◌, String, ◌≡◌, ◌≢◌, refl, inl, inr, true, false, some, [], ◌∷◌, All, text_dec, text_ne, dec_le,
  arith,
}
use tlo.Prelude.Sort.{sort_by, insert_by}
use tlo.Prelude.Dict
use tlo.Errors.{ok}
use tlo.Task.{TaskStateRecord, timestamp}
use tlo.Queue.Order.{queue_sort_key, name_or_default}
use tlo.Orchestrator.{submit_task}
use tlo.Orchestrator.Invariant.{submit_task-Inv}
use tlo.Queue.Simple
use tlo.System.{System}
use tlo.Scheduler.{tick}
use tlo.Scheduler.Invariant.{Keeps, tick-Keeps}
use tlo.System.Queues.{simple_queue, map_queue}
use tlo.QueueLaws.Map.{map_laws}
use tlo.QueueLaws.Deques.{all_of}
use tlo.QueueLaws.Simple.{simple_laws}
use tlo.Executor.{Calls, cancel_pending_tasks, stop}
use tlo.Executor.Pending.{Inv}
use tlo.Executor.Cancel.{IsCancelled}
use tlo.Executor.Cancel.Sweeps.{cancel_pending_tasks_lem}
use tlo.Executor.Cancel.Stop.{stop_lem}
use tlo.Examples.{values, system, record_for, mail, late, disk}

keyed :
    (m : Dict.Dict (TaskStateRecord values))
    → All (λ e. e.1.id ≡ e.0) m
    → (id : String) (r : TaskStateRecord values) → Dict.lookup id m ≡ some r
    → r.id ≡ id
unfolding Dict.lookup
keyed [] h id r e = cc
keyed ((j, u) ∷ m) h id r e = ground (arith, keyed m h.1 id r, h.0)

pub system-Inv : Inv (simple_laws values) system
unfolding Simple.enqueue sort_by insert_by queue_sort_key dec_le Dict.lookup text_dec
system-Inv = record {
  valid = (text_ne "mail" "" refl, (text_ne "default" "" refl, (text_ne "default" "" refl, tt)));
  stored = ((record_for mail, refl), ((record_for disk, refl), ((record_for late, refl), tt)));
  keyed = keyed system.store (refl, (refl, (refl, tt)));
}

cancel_pending_tasks_lem_example :
    (u : System (simple_queue values)) × (cancel_pending_tasks 4 system ≡ some (u, ok tt))
    × (u.queue.tasks ≡ [])
    × All (λ t. IsCancelled (simple_laws values) u t.id) (mail ∷ disk ∷ late ∷ [])
    × ((id : String)
        → All (λ t. t.id ≢ id) (mail ∷ disk ∷ late ∷ [])
        → Dict.lookup id u.store ≡ Dict.lookup id system.store)
unfolding Simple.enqueue sort_by insert_by queue_sort_key dec_le
cancel_pending_tasks_lem_example =
    cancel_pending_tasks_lem (simple_laws values) 4 system system-Inv (omega arith)

-- The same tasks in the deques of a MapQueue, with a deque that is empty.
abbrev pub map_system : System (map_queue values)
map_system = record {
  settings = system.settings;
  tasks = system.tasks;
  store = system.store;
  queue = record {
    default_queue = "default";
    queues = ("mail", mail ∷ []) ∷ ("default", disk ∷ late ∷ []) ∷ ("", []) ∷ [];
  };
  locker = system.locker;
  last_run = system.last_run;
  running = true;
  times = system.times;
  reads = 0;
  uuids = system.uuids;
  drawn = 0;
}

pub map_system-Inv : Inv (map_laws values) map_system
unfolding Dict.lookup text_dec all_of
map_system-Inv = record {
  valid = record {
    distinct = (refl, (refl, (refl, tt)));
    named = (inr (text_ne "mail" "" refl), (inr (text_ne "default" "" refl), (inl refl, tt)));
  };
  stored = ((record_for mail, refl), ((record_for disk, refl), ((record_for late, refl), tt)));
  keyed = keyed system.store (refl, (refl, (refl, tt)));
}

abbrev map_calls : Calls (map_queue values)
map_calls f a k s = (s, ok a)

-- The settings say drain; the caller asks to cancel.
stop_lem_example :
    (u : System (map_queue values)) × (stop map_calls 4 true map_system ≡ some (u, ok tt))
    × (u.running ≡ false)
    × (all_of u.queue.queues ≡ [])
    × All (λ t. IsCancelled (map_laws values) u t.id) (mail ∷ disk ∷ late ∷ [])
    × ((id : String)
        → All (λ t. t.id ≢ id) (mail ∷ disk ∷ late ∷ [])
        → Dict.lookup id u.store ≡ Dict.lookup id system.store)
unfolding all_of
stop_lem_example =
    stop_lem (map_laws values) map_calls 4 true map_system map_system-Inv refl (omega arith)

submit_task-Inv_example :
    Inv (simple_laws values) (submit_task "report" 7 tt (some "mail") (timestamp 2) system).0
unfolding name_or_default text_dec
submit_task-Inv_example =
    submit_task-Inv (simple_laws values) system "report" 7 tt (some "mail") (timestamp 2)
      (text_ne "mail" "" refl) system-Inv

-- The system at a clock that has passed the interval of the report.
abbrev due_system : System (simple_queue values)
due_system = record system { times = λ n. 200 + n }

tick-Keeps_example : Keeps (simple_laws values) (tick due_system).0
unfolding Simple.enqueue
tick-Keeps_example = tick-Keeps (simple_laws values) due_system (record {
  inv = record { valid = system-Inv.valid; stored = system-Inv.stored; keyed = system-Inv.keyed };
  named = text_ne "default" "" refl;
})
