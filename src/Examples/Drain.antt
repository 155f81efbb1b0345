-- ===== src/Examples/Drain.antt =====
-- The loop that drains the queues, and a stop that drains, on the system with three tasks.
use tlo.Prelude.{
  String, ◌+◌, ◌≡◌, ◌≢◌, ◌⊎◌, refl, false, some, [], ◌∷◌, All, text_dec, text_ne, dec_le, ite,
  arith,
}
use tlo.Prelude.Sort.{sort_by, insert_by}
use tlo.Prelude.Dict
use tlo.Errors.{ok, raise, user}
use tlo.Locking.{is_locked, contains}
use tlo.Queue.Order.{queue_sort_key, is_eligible, name_or_default}
use tlo.Queue.Simple
use tlo.System.{System}
use tlo.System.Queues.{simple_queue, map_queue}
use tlo.QueueLaws.Map.{map_laws}
use tlo.QueueLaws.Deques.{all_of}
use tlo.QueueLaws.Simple.{simple_laws}
use tlo.Executor.{Calls, drain_queue, stop}
use tlo.Executor.Drain.{LeavesSystem, IsRunRecord}
use tlo.Task.{TaskStateRecord, no_eta, normalise_eta}
use tlo.Registry.{get_task, render_exclusive_key}
use tlo.Orchestrator.{submit_task, get_task_state, exclusive_key_of}
use tlo.Orchestrator.Served.{drain_queue-submit_task}
use tlo.Executor.Drain.Sweeps.{Ready}
use tlo.Executor.Drain.Waits.{Waits}
use tlo.Executor.Drain.Ends.{HasRun, Stopped, drain_queue_lem, drain_queue-eligible, stop_drain_lem}
use tlo.Examples.{values, system, calls, mail, late, disk}
use tlo.Examples.Cancel.{system-Inv, map_system, map_system-Inv}

calls-LeavesSystem : LeavesSystem calls
calls-LeavesSystem f args kwargs s = record {
  same_store = refl;
  same_queue = refl;
  same_locker = refl;
  same_running = refl;
  same_times = refl;
  same_settings = refl;
  later = omega arith;
}

system-Ready : Ready (simple_laws values) system
unfolding Simple.enqueue sort_by insert_by queue_sort_key dec_le is_locked contains
system-Ready = record { inv = system-Inv; free = (tt, (refl, (tt, tt))) }

drain_queue_lem_example :
    (u : System (simple_queue values)) × (drain_queue calls 4 system ≡ some (u, ok tt))
    × Ready (simple_laws values) u
    × All (λ t. HasRun u t.id ⊎ Waits system t) (mail ∷ disk ∷ late ∷ [])
    × All (Waits system) u.queue.tasks
    × ((id : String)
        → All (λ t. t.id ≢ id) (mail ∷ disk ∷ late ∷ [])
        → Dict.lookup id u.store ≡ Dict.lookup id system.store)
unfolding Simple.enqueue sort_by insert_by queue_sort_key dec_le
drain_queue_lem_example =
    drain_queue_lem (simple_laws values) calls calls-LeavesSystem 4 system system-Ready
      (omega arith)

drain_queue-eligible_example :
    (u : System (simple_queue values)) × (drain_queue calls 4 system ≡ some (u, ok tt))
    × All (λ t. HasRun u t.id ⊎ (is_eligible 20 t ≡ false)) (mail ∷ disk ∷ late ∷ [])
unfolding Simple.enqueue sort_by insert_by queue_sort_key dec_le
drain_queue-eligible_example =
    drain_queue-eligible (simple_laws values) calls calls-LeavesSystem 4 system system-Ready
      (λ i j h. omega (arith, h)) (omega arith)

-- In the deques of a MapQueue, at a clock that does not reach the ETA of one task; each function
-- reads the clock, and "report" returns while any other raises.
abbrev pub early_system : System (map_queue values)
early_system = record map_system { times = λ n. n }

abbrev pub timed_calls : Calls (map_queue values)
timed_calls f a k s =
    (record s { reads = s.reads + 1 }, ite (text_dec f "report") (ok (a + 1)) (raise (user f)))

pub timed_calls-LeavesSystem : LeavesSystem timed_calls
timed_calls-LeavesSystem f args kwargs s = record {
  same_store = refl;
  same_queue = refl;
  same_locker = refl;
  same_running = refl;
  same_times = refl;
  same_settings = refl;
  later = omega arith;
}

early_system-Ready : Ready (map_laws values) early_system
unfolding all_of is_locked contains
early_system-Ready = record {
  inv = record {
    valid = map_system-Inv.valid;
    stored = map_system-Inv.stored;
    keyed = map_system-Inv.keyed;
  };
  free = (tt, (refl, (tt, tt)));
}

stop_drain_lem_example :
    (u : System (map_queue values)) × (stop timed_calls 4 false early_system ≡ some (u, ok tt))
    × (u.running ≡ false)
    × (all_of u.queue.queues ≡ [])
    × All (λ t. Stopped (map_laws values) early_system u t.id) (mail ∷ disk ∷ late ∷ [])
    × ((id : String)
        → All (λ t. t.id ≢ id) (mail ∷ disk ∷ late ∷ [])
        → Dict.lookup id u.store ≡ Dict.lookup id system.store)
unfolding all_of
stop_drain_lem_example =
    stop_drain_lem (map_laws values) timed_calls timed_calls-LeavesSystem 4 false early_system
      early_system-Ready refl (omega arith)

-- A report is submitted behind the three tasks; it needs the key "disk", which is free.
drain_queue-submit_task_example :
    (u v : System (simple_queue values)) × (r : TaskStateRecord values) × (submit_task "report" 7 tt
        (some "mail")
        no_eta
        system
      ≡ (u, ok tt))
    × (drain_queue calls 5 u ≡ some (v, ok tt))
    × (get_task_state "d" v ≡ (v, ok r))
    × IsRunRecord r
unfolding Simple.enqueue sort_by insert_by queue_sort_key dec_le is_locked contains Dict.lookup
    text_dec name_or_default is_eligible exclusive_key_of get_task render_exclusive_key
    normalise_eta
drain_queue-submit_task_example =
    drain_queue-submit_task (simple_laws values) system "report" 7 tt (some "mail") no_eta
      (some "disk") calls calls-LeavesSystem system-Ready (text_ne "mail" "" refl) refl refl refl
      (λ i j h. omega (arith, h)) refl 5 (omega arith)
