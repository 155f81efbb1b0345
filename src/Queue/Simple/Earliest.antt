-- ===== src/Queue/Simple/Earliest.antt =====
-- SimpleInMemoryQueue.dequeue against the order of the queue.
use tlo.Prelude.{
  String, ℕ, ◌≡◌, refl, true, false, some, List, [], ◌∷◌, ◌++◌, All, missing, found,
  split_first-Split,
}
use tlo.Prelude.Sort.{IsSorted, IsAbove}
use tlo.Errors.{ok, raise, tlo_error, queue_empty_error}
use tlo.Task.{Values, QueuedTask}
use tlo.Queue.Order.{name_or_default, queue_sort_key}
use tlo.Queue.Simple.{SimpleInMemoryQueue, dequeue}
use tlo.Queue.Simple.Next.{is_ready, dequeue-split_first}

module _ {V : Values} where
  -- What `dequeue` may do: say that the queue is empty, where no task is ready, or take out a ready
  -- task, where none before it is ready and all behind it sort at or above it.
  pub data Dequeues (n : String) (now : ℕ) (q : SimpleInMemoryQueue V) : Type 0 where
    empty :
        All (λ t. is_ready n now t ≡ false) q.tasks
        → dequeue (some n) now q ≡ (q, raise (tlo_error queue_empty_error))
        → Dequeues n now q
    earliest :
        (before : List (QueuedTask V)) (t : QueuedTask V) (after : List (QueuedTask V))
        → q.tasks ≡ before ++ t ∷ after
        → dequeue (some n) now q ≡ (record q { tasks = before ++ after }, ok t)
        → is_ready n now t ≡ true
        → All (λ u. is_ready n now u ≡ false) before
        → IsAbove queue_sort_key (queue_sort_key t) after
        → Dequeues n now q

  sorted_behind :
      (before : List (QueuedTask V)) (t : QueuedTask V) (after : List (QueuedTask V))
      → IsSorted queue_sort_key (before ++ t ∷ after)
      → IsAbove queue_sort_key (queue_sort_key t) after
  sorted_behind [] t after h = h.0
  sorted_behind (u ∷ before) t after h = sorted_behind before t after h.1

  -- On a sorted list dequeue, with a name that is not replaced by the default, takes out a ready
  -- task, one of that name that is eligible now, and leaves the other tasks in their order: no task
  -- before it is ready, and none behind it has a smaller sort key. If no task is ready it raises
  -- the error of an empty queue and changes nothing. It does nothing else.
  pub dequeue-Dequeues :
      (n : String) (now : ℕ) (q : SimpleInMemoryQueue V)
      → name_or_default (some n) q.default_queue ≡ n
      → IsSorted queue_sort_key q.tasks
      → Dequeues n now q
  dequeue-Dequeues n now q e s = elim (split_first-Split (is_ready n now) q.tasks) [
    | missing h f ↦ empty h (rw (dequeue-split_first, e, f) refl)
    | found before t after p fail pass f ↦
        earliest before t after p (rw (dequeue-split_first, e, f) refl) pass fail
          (sorted_behind before t after (rw p at s))
  ]
