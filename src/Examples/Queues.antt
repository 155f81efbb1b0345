-- ===== src/Examples/Queues.antt =====
-- The theorems on the queues, at concrete tasks.
use tlo.Prelude.{◌≡◌, refl, none, some, List, [], ◌∷◌, All, text_dec, dec_le, arith, text_ne}
use tlo.Prelude.Sort.{sort_by, insert_by}
use tlo.Prelude.Dict
use tlo.Errors.{ok}
use tlo.Task.{QueuedTask, timestamp, task_eq, normalise_eta}
use tlo.Queue.Order.{select, queue_sort_key, name_or_default, list_remove, is_eligible}
use tlo.Queue.Simple.{SimpleInMemoryQueue}
use tlo.Queue.Simple
use tlo.Queue.Simple.Earliest.{Dequeues, dequeue-Dequeues}
use tlo.Queue.Map.{MapQueue, deque_of, dequeue_loop}
use tlo.Queue.Map
use tlo.Queue.Started.{IsStarted}
use tlo.Queue.Parity.{Agrees}
use tlo.Queue.Parity.Totals.{counted, total_tasks_by_queue-Agrees}
use tlo.Queue.Parity.Peeks.{bulk_peek-Agrees, first_up_to, come}
use tlo.Queue.Parity.Steps.{enqueue-Agrees, dequeue-Agrees, peek-Agrees, dequeue_any_unsafe-Agrees}
use tlo.Queue.Parity.Updates.{remove-Agrees, reschedule-Agrees}
use tlo.Queue.Parity.Runs.{
  Call, enqueues, dequeues, peeks, dequeues_any, removes, reschedules, Related, AreAllowed,
  simple_run, map_run, map_run-simple_run, call-Related, init-Related, simple_call, map_call,
}
use tlo.Examples.{
  values, make_task, mail, late, disk, three, three_deques, one, one_deque, two, two_deques,
}

one-Related : Related one one_deque
unfolding simple_call map_call
one-Related = (call-Related (enqueues mail) _ _ (init-Related "default") tt).1

two-Related : Related two two_deques
unfolding simple_call map_call Simple.enqueue sort_by insert_by
two-Related = (call-Related (enqueues late) one one_deque one-Related (text_ne "a" "b" refl, tt)).1

three-Related : Related three three_deques
unfolding simple_call map_call Simple.enqueue sort_by insert_by queue_sort_key dec_le
three-Related =
    (call-Related (enqueues disk) two two_deques two-Related
      (text_ne "a" "c" refl, (text_ne "b" "c" refl, tt))).1

-- A mail that comes in later, with a new id.
abbrev second : QueuedTask values
second = make_task "d" "mail" 6 none none

abbrev calls : List (Call values)
calls =
    enqueues second
    ∷ peeks none 7
    ∷ dequeues none 7
    ∷ reschedules "b" (timestamp 0)
    ∷ dequeues none 7
    ∷ dequeues none 7
    ∷ removes "a"
    ∷ dequeues_any (some "mail")
    ∷ []

calls-AreAllowed : AreAllowed calls three
unfolding simple_call Simple.enqueue Simple.dequeue Simple.reschedule Simple.remove sort_by
    insert_by queue_sort_key Simple.next_task Simple.first_ready Simple.change_by_id
    Simple.delete_by_id Simple.updated name_or_default list_remove task_eq text_dec normalise_eta
    dec_le
calls-AreAllowed = (
  (text_ne "a" "d" refl, (text_ne "c" "d" refl, (text_ne "b" "d" refl, tt))),
  (
    started,
    (started, (tt, ((omega arith, (omega arith, (omega arith, tt))), (after, (tt, (tt, tt)))))),
  ),
)
  where
    after : All (IsStarted 7) (mail ∷ second ∷ [])
    after = (omega arith, (omega arith, tt))

    started : All (IsStarted 7) (mail ∷ disk ∷ second ∷ late ∷ [])
    started = (omega arith, (omega arith, (omega arith, (omega arith, tt))))

map_run-simple_run_example : map_run calls three_deques ≡ simple_run calls three
map_run-simple_run_example =
    map_run-simple_run calls three three_deques three-Related calls-AreAllowed

three-IsStarted : All (IsStarted 7) three.tasks
unfolding Simple.enqueue sort_by insert_by queue_sort_key dec_le
three-IsStarted = (omega arith, (omega arith, (omega arith, tt)))

dequeue-Dequeues_example : Dequeues "default" 7 three
unfolding name_or_default text_dec
dequeue-Dequeues_example = dequeue-Dequeues "default" 7 three refl three-Related.agrees.sorted

total_tasks_by_queue-Agrees_example :
    counted "default" (Simple.total_tasks_by_queue three)
    ≡ counted "default" (Map.total_tasks_by_queue three_deques)
total_tasks_by_queue-Agrees_example =
    total_tasks_by_queue-Agrees three three_deques "default" three-Related.agrees

enqueue-Agrees_example : Agrees (Simple.enqueue second three) (Map.enqueue second three_deques)
enqueue-Agrees_example = enqueue-Agrees three three_deques three-Related.agrees second

dequeue-Agrees_example :
    ((Map.dequeue none 7 three_deques).1 ≡ (Simple.dequeue none 7 three).1)
    × Agrees (Simple.dequeue none 7 three).0 (Map.dequeue none 7 three_deques).0
dequeue-Agrees_example =
    dequeue-Agrees three three_deques three-Related.agrees none 7 three-IsStarted

peek-Agrees_example :
    ((Map.peek none 7 three_deques).1 ≡ ok (Simple.peek none 7 three))
    × Agrees three (Map.peek none 7 three_deques).0
peek-Agrees_example = peek-Agrees three three_deques three-Related.agrees none 7 three-IsStarted

dequeue_any_unsafe-Agrees_example :
    ((Map.dequeue_any_unsafe (some "mail") three_deques).1
      ≡ (Simple.dequeue_any_unsafe (some "mail") three).1)
    × Agrees
        (Simple.dequeue_any_unsafe (some "mail") three).0
        (Map.dequeue_any_unsafe (some "mail") three_deques).0
dequeue_any_unsafe-Agrees_example =
    dequeue_any_unsafe-Agrees three three_deques three-Related.agrees (some "mail")

bulk_peek-Agrees_example :
    (Simple.bulk_peek none (some 1) 7 three
      ≡ first_up_to (some 1) (come 7 (select "default" three.tasks)))
    × ((Map.bulk_peek none (some 1) 7 three_deques).1
        ≡ first_up_to (some 1) (come 7 (select "default" three.tasks)))
    × Agrees three (Map.bulk_peek none (some 1) 7 three_deques).0
unfolding name_or_default Simple.enqueue
bulk_peek-Agrees_example = bulk_peek-Agrees three three_deques three-Related.agrees none (some 1) 7

remove-Agrees_example :
    ((Map.remove "b" three_deques).1 ≡ (Simple.remove "b" three).1)
    × Agrees (Simple.remove "b" three).0 (Map.remove "b" three_deques).0
remove-Agrees_example =
    remove-Agrees three three_deques three-Related.agrees three-Related.unique
      three-Related.distinct "b"

reschedule-Agrees_example :
    ((Map.reschedule "b" (timestamp 0) three_deques).1
      ≡ (Simple.reschedule "b" (timestamp 0) three).1)
    × Agrees
        (Simple.reschedule "b" (timestamp 0) three).0
        (Map.reschedule "b" (timestamp 0) three_deques).0
reschedule-Agrees_example =
    reschedule-Agrees three three_deques three-Related.agrees three-Related.unique
      three-Related.distinct "b" (timestamp 0)

-- At 7 both queues hand out the report that needs the disk, since the other one waits until 9.
dequeued : (Simple.dequeue none 7 three).1 ≡ ok disk
unfolding Simple.dequeue Simple.enqueue sort_by insert_by queue_sort_key dec_le Simple.next_task
    Simple.first_ready name_or_default list_remove task_eq text_dec
dequeued = refl

dequeued_deque : (Map.dequeue none 7 three_deques).1 ≡ ok disk
unfolding Map.dequeue Map.enqueue sort_by insert_by queue_sort_key dec_le Map.put Map.deque_of
    Map.touch Dict.lookup Dict.insert name_or_default dequeue_loop is_eligible text_dec
dequeued_deque = refl
