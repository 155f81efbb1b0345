-- ===== src/Examples/Runs.antt =====
-- A runtime from its start over some calls, with a MapQueue.
use tlo.Prelude.{◌≡◌, refl, ◌+◌, false, some, text_dec, text_ne, arith}
use tlo.Prelude.Sort.{sort_by, insert_by}
use tlo.Prelude.Dict
use tlo.Errors.{ok}
use tlo.Task.{no_eta, normalise_eta}
use tlo.StateStore
use tlo.Registry.{get_task}
use tlo.Queue.Order.{name_or_default}
use tlo.Queue.Map
use tlo.System.{System}
use tlo.System.Queues.{map_queue}
use tlo.QueueLaws.Map.{map_laws}
use tlo.QueueLaws.Deques.{all_of}
use tlo.Scheduler.{tick}
use tlo.Orchestrator.{initial_system, submit_task, exclusive_key_of, stop}
use tlo.Orchestrator.Sound.{Sound}
use tlo.Orchestrator.Reachable.{
  Reaches, starts, steps, submits, ticks, initial_system-Sound, initial_system-stop,
}
use tlo.Examples.{values, system}
use tlo.Examples.Drain.{timed_calls, timed_calls-LeavesSystem}

abbrev fresh : System (map_queue values)
fresh = initial_system system.settings (Map.init "default") (λ n. 20 + n) (λ n. "d")

abbrev submitted : System (map_queue values)
submitted = (submit_task "report" 7 tt (some "mail") no_eta fresh).0

submitted-Reaches : Reaches timed_calls fresh submitted
submitted-Reaches = steps starts (submits "report" 7 tt (some "mail") no_eta)

ticked-Reaches : Reaches timed_calls fresh (tick submitted).0
ticked-Reaches = steps submitted-Reaches ticks

initial_system-Sound_example : Sound (map_laws values) (tick submitted).0
unfolding all_of
initial_system-Sound_example =
    initial_system-Sound (map_laws values) timed_calls timed_calls-LeavesSystem system.settings
      (Map.init "default") (λ n. 20 + n) (λ n. "d") (record { distinct = tt; named = tt }) refl
      (text_ne "default" "" refl) (text_ne "default" "" refl) (tick submitted).0 ticked-Reaches

initial_system-stop_example :
    (u : System (map_queue values)) × (stop timed_calls 2 false submitted ≡ some (u, ok tt))
    × (u.running ≡ false)
unfolding all_of initial_system submit_task exclusive_key_of get_task name_or_default normalise_eta
    Dict.lookup Dict.insert StateStore.create Map.enqueue Map.put Map.touch Map.deque_of sort_by
    insert_by text_dec
initial_system-stop_example =
    initial_system-stop (map_laws values) timed_calls timed_calls-LeavesSystem system.settings
      (Map.init "default") (λ n. 20 + n) (λ n. "d") (record { distinct = tt; named = tt }) refl
      (text_ne "default" "" refl) (text_ne "default" "" refl) submitted submitted-Reaches 2 false
      (omega arith)
