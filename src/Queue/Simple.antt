-- ===== src/Queue/Simple.antt =====
-- SimpleInMemoryQueue: one list for all queues, sorted after each change.
pub mod Next
pub mod Earliest
use tlo.Prelude.{
  leb, String, ℕ, ◌+◌, Bool, Option, none, some, List, [], ◌∷◌, ◌++◌, ltb, text_dec, ite,
  if◌then◌else◌, length,
}
use mathlib.Core.Option
use tlo.Prelude.Sort.{sort_by}
use tlo.Prelude.Dict
use tlo.Prelude.Dict.{Dict}
use tlo.Errors.{Result, ok, raise, Action, then_do, tlo_error, queue_empty_error}
use tlo.Task.{Values, QueuedTask, Eta, normalise_eta}
use tlo.Queue.Order.{name_or_default, queue_sort_key, is_deferred, select, list_remove}

pub record SimpleInMemoryQueue (V : Values) : Type 0 where
  pub default_queue : String
  pub tasks : List (QueuedTask V)

module _ {V : Values} where
  abbrev pub sort_tasks : List (QueuedTask V) → List (QueuedTask V)
  sort_tasks = sort_by queue_sort_key

  abbrev pub init : String → SimpleInMemoryQueue V
  init default = record { default_queue = default; tasks = [] }

  unfoldable pub enqueue : QueuedTask V → SimpleInMemoryQueue V → SimpleInMemoryQueue V
  enqueue item q = record q { tasks = sort_tasks (q.tasks ++ item ∷ []) }

  -- The loop of `_next_task`.
  unfoldable pub first_ready : ℕ → List (QueuedTask V) → Option (QueuedTask V)
  first_ready now [] = none
  first_ready now (t ∷ ts) = elim t.eta [
    | none ↦ some t
    | some eta ↦ if ltb now eta then first_ready now ts else some t
  ]

  unfoldable pub next_task : Option String → ℕ → SimpleInMemoryQueue V → Option (QueuedTask V)
  unfolding first_ready name_or_default
  next_task name now q = first_ready now (select (name_or_default name q.default_queue) q.tasks)

  unfoldable pub dequeue : Option String → ℕ → Action (SimpleInMemoryQueue V) (QueuedTask V)
  unfolding next_task list_remove
  dequeue name now q = elim (next_task (some (name_or_default name q.default_queue)) now q) [
    | some t ↦ elim (list_remove t q.tasks) [
      | ok rest ↦ (record q { tasks = rest }, ok t)
      | raise e ↦ (q, raise e)
    ]
    | none ↦ (q, raise (tlo_error queue_empty_error))
  ]

  unfoldable pub peek : Option String → ℕ → SimpleInMemoryQueue V → Option (QueuedTask V)
  unfolding next_task
  peek name now q = next_task (some (name_or_default name q.default_queue)) now q

  -- The loop of `dequeue_any_unsafe`: `pop(idx)` at the first task of the queue.
  unfoldable pub pop_named :
      String → List (QueuedTask V) → Option (QueuedTask V × List (QueuedTask V))
  pop_named name [] = none
  pop_named name (t ∷ ts) =
      ite (text_dec t.queue_name name) (some (t, ts))
        (elim (pop_named name ts) [ none ↦ none | some (u, rest) ↦ some (u, t ∷ rest) ])

  unfoldable pub dequeue_any_unsafe : Option String → Action (SimpleInMemoryQueue V) (QueuedTask V)
  unfolding pop_named name_or_default
  dequeue_any_unsafe name q = elim (pop_named (name_or_default name q.default_queue) q.tasks) [
    | some (t, rest) ↦ (record q { tasks = rest }, ok t)
    | none ↦ (q, raise (tlo_error queue_empty_error))
  ]

  -- The loop of `remove`: `del self._queue[idx]` at the first task with the id.
  unfoldable pub delete_by_id : String → List (QueuedTask V) → Option (List (QueuedTask V))
  delete_by_id id [] = none
  delete_by_id id (t ∷ ts) =
      ite (text_dec t.id id) (some ts)
        (elim (delete_by_id id ts) [ none ↦ none | some rest ↦ some (t ∷ rest) ])

  -- The loops of `reschedule` and `move`: the first task with the id is changed in place.
  unfoldable pub change_by_id :
      (QueuedTask V → QueuedTask V) → String → List (QueuedTask V) → Option (List (QueuedTask V))
  change_by_id f id [] = none
  change_by_id f id (t ∷ ts) =
      ite (text_dec t.id id) (some (f t ∷ ts))
        (elim (change_by_id f id ts) [ none ↦ none | some rest ↦ some (t ∷ rest) ])

  unfoldable pub updated :
      SimpleInMemoryQueue V
      → Option (List (QueuedTask V))
      → SimpleInMemoryQueue V × Result (Unit {0})
  updated q (some tasks) = (record q { tasks = tasks }, ok tt)
  updated q none = (q, raise (tlo_error queue_empty_error))

  unfoldable pub remove : String → Action (SimpleInMemoryQueue V) (Unit {0})
  unfolding delete_by_id updated
  remove id q = updated q (delete_by_id id q.tasks)

  unfoldable pub reschedule : String → Eta → Action (SimpleInMemoryQueue V) (Unit {0})
  unfolding change_by_id normalise_eta updated
  reschedule id eta q =
      updated q (
        Option.map sort_tasks (change_by_id (λ t. record t { eta = normalise_eta eta }) id q.tasks))

  unfoldable pub move : String → String → Action (SimpleInMemoryQueue V) (Unit {0})
  unfolding change_by_id updated
  move id name q =
      updated q
        (Option.map sort_tasks (change_by_id (λ t. record t { queue_name = name }) id q.tasks))

  -- The loop of `bulk_peek`, with the tasks found so far; `break` once the limit is reached.
  unfoldable pub bulk_peek_loop :
      ℕ → Option ℕ → List (QueuedTask V) → List (QueuedTask V) → List (QueuedTask V)
  bulk_peek_loop now limit eligible [] = eligible
  bulk_peek_loop now limit eligible (t ∷ ts) =
      let found = eligible ++ t ∷ [] in
      let rest = bulk_peek_loop now limit found ts in
      if is_deferred now t
      then bulk_peek_loop now limit eligible ts
      else elim limit [ none ↦ rest | some n ↦ if leb n (length found) then found else rest ]

  unfoldable pub bulk_peek :
      Option String → Option ℕ → ℕ → SimpleInMemoryQueue V → List (QueuedTask V)
  unfolding bulk_peek_loop name_or_default
  bulk_peek name limit now q =
      bulk_peek_loop now limit [] (select (name_or_default name q.default_queue) q.tasks)

  unfoldable pub len : SimpleInMemoryQueue V → ℕ
  len q = length q.tasks

  -- `result[qt.queue_name] += 1` for each task, over a `defaultdict(int)`.
  unfoldable pub count_names : Dict ℕ → List (QueuedTask V) → Dict ℕ
  count_names counts [] = counts
  count_names counts (t ∷ ts) = count_names (Dict.add_one t.queue_name counts) ts

  unfoldable pub total_tasks_by_queue : SimpleInMemoryQueue V → Dict ℕ
  unfolding count_names
  total_tasks_by_queue q = count_names [] q.tasks

  unfoldable pub total_tasks : SimpleInMemoryQueue V → ℕ
  total_tasks q = length q.tasks
