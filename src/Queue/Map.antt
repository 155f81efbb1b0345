-- ===== src/Queue/Map.antt =====
-- MapQueue: a deque for each queue, in a `defaultdict`, so a lookup makes an entry that is missing.
pub mod Rotation
use tlo.Prelude.{
  leb, String, ℕ, suc, zero, ◌+◌, Bool, Option, none, some, List, [], ◌∷◌, ◌++◌, text_dec, ite,
  if◌then◌else◌, length, total, map,
}
use tlo.Prelude.Dict
use tlo.Prelude.Dict.{Dict}
use tlo.Errors.{Result, ok, raise, Action, tlo_error, queue_empty_error, index_error}
use tlo.Task.{Values, QueuedTask, Eta, normalise_eta}
use tlo.Queue.Order.{name_or_default, is_eligible, list_remove, is_deferred}
use tlo.Queue.Simple.{sort_tasks}

pub record MapQueue (V : Values) : Type 0 where
  pub default_queue : String
  pub queues : Dict (List (QueuedTask V))

module _ {V : Values} where
  abbrev pub init : String → MapQueue V
  init default = record { default_queue = default; queues = [] }

  -- `self._queue[name]`: the deque, and the state in which it has an entry.
  unfoldable pub deque_of : String → Dict (List (QueuedTask V)) → List (QueuedTask V)
  deque_of name queues = elim (Dict.lookup name queues) [ some d ↦ d | none ↦ [] ]

  unfoldable pub touch : String → Dict (List (QueuedTask V)) → Dict (List (QueuedTask V))
  touch name queues = elim (Dict.lookup name queues) [
    | some d ↦ queues
    | none ↦ Dict.insert name [] queues
  ]

  -- The entry is made if it is missing, and gets a new deque.
  unfoldable pub put :
      String → List (QueuedTask V) → Dict (List (QueuedTask V)) → Dict (List (QueuedTask V))
  unfolding touch
  put name d queues = Dict.insert name d (touch name queues)

  unfoldable pub enqueue : QueuedTask V → MapQueue V → MapQueue V
  enqueue item q = record q {
    queues =
        put item.queue_name (sort_tasks (deque_of item.queue_name q.queues ++ item ∷ [])) q.queues;
  }

  -- The loop of `dequeue`, for the rounds left: the head is taken if it is eligible, and otherwise
  -- goes to the end.
  unfoldable pub dequeue_loop :
      ℕ → ℕ → List (QueuedTask V) → List (QueuedTask V) × Result (QueuedTask V)
  dequeue_loop now zero d = (d, raise (tlo_error queue_empty_error))
  dequeue_loop now (suc rounds) [] = ([], raise index_error)
  dequeue_loop now (suc rounds) (t ∷ d) =
      let rest = dequeue_loop now rounds (d ++ t ∷ []) in
      if is_eligible now t then (d, ok t) else rest

  unfoldable pub dequeue : Option String → ℕ → Action (MapQueue V) (QueuedTask V)
  unfolding dequeue_loop name_or_default
  dequeue queue_name now q =
      let name = name_or_default queue_name q.default_queue in
      let d = deque_of name q.queues in
      let (d', result) = dequeue_loop now (length d) d in
      (record q { queues = put name d' q.queues }, result)

  -- The loop of `peek`: as that of `dequeue`, and the task stays at the head.
  unfoldable pub peek_loop :
      ℕ → ℕ → List (QueuedTask V) → List (QueuedTask V) × Result (Option (QueuedTask V))
  peek_loop now zero d = (d, ok none)
  peek_loop now (suc rounds) [] = ([], raise index_error)
  peek_loop now (suc rounds) (t ∷ d) =
      let rest = peek_loop now rounds (d ++ t ∷ []) in
      if is_eligible now t then (t ∷ d, ok (some t)) else rest

  unfoldable pub peek : Option String → ℕ → Action (MapQueue V) (Option (QueuedTask V))
  unfolding peek_loop name_or_default
  peek queue_name now q =
      let name = name_or_default queue_name q.default_queue in
      let d = deque_of name q.queues in
      let (d', result) = peek_loop now (length d) d in
      (record q { queues = put name d' q.queues }, result)

  -- `queue.popleft()`, whose IndexError becomes the package's error.
  unfoldable pub popleft : List (QueuedTask V) → List (QueuedTask V) × Result (QueuedTask V)
  popleft [] = ([], raise (tlo_error queue_empty_error))
  popleft (t ∷ d) = (d, ok t)

  unfoldable pub dequeue_any_unsafe : Option String → Action (MapQueue V) (QueuedTask V)
  unfolding popleft name_or_default
  dequeue_any_unsafe queue_name q =
      let name = name_or_default queue_name q.default_queue in
      let (d', result) = popleft (deque_of name q.queues) in
      (record q { queues = put name d' q.queues }, result)

  unfoldable pub find_by_id : String → List (QueuedTask V) → Option (QueuedTask V)
  find_by_id id [] = none
  find_by_id id (t ∷ ts) = ite (text_dec t.id id) (some t) (find_by_id id ts)

  -- The loops of `remove` and `reschedule`, over the deques and the tasks of each: the deque that
  -- has the task is replaced.
  unfoldable pub update_loop :
      (QueuedTask V → List (QueuedTask V) → Result (List (QueuedTask V)))
      → String
      → Dict (List (QueuedTask V))
      → Result (Dict (List (QueuedTask V)))
  unfolding find_by_id
  update_loop f id [] = raise (tlo_error queue_empty_error)
  update_loop f id ((name, d) ∷ m) = elim (find_by_id id d) [
    | some t ↦ elim (f t d) [ ok d' ↦ ok ((name, d') ∷ m) | raise e ↦ raise e ]
    | none ↦ elim (update_loop f id m) [ ok m' ↦ ok ((name, d) ∷ m') | raise e ↦ raise e ]
  ]

  unfoldable pub updated :
      MapQueue V → Result (Dict (List (QueuedTask V))) → MapQueue V × Result (Unit {0})
  updated q (ok m) = (record q { queues = m }, ok tt)
  updated q (raise e) = (q, raise e)

  unfoldable pub remove : String → Action (MapQueue V) (Unit {0})
  unfolding update_loop list_remove updated
  remove id q = updated q (update_loop list_remove id q.queues)

  -- The ETA of the first task with the id is set in place.
  unfoldable pub set_eta : String → Option ℕ → List (QueuedTask V) → List (QueuedTask V)
  set_eta id eta [] = []
  set_eta id eta (t ∷ ts) =
      ite (text_dec t.id id) (record t { eta = eta } ∷ ts) (t ∷ set_eta id eta ts)

  unfoldable pub reschedule : String → Eta → Action (MapQueue V) (Unit {0})
  unfolding update_loop set_eta normalise_eta updated
  reschedule id eta q =
      updated q
        (update_loop (λ t d. ok (sort_tasks (set_eta id (normalise_eta eta) d))) id q.queues)

  -- The deque that holds the task, by the loops of `move`.
  unfoldable pub find_source :
      String → Dict (List (QueuedTask V)) → Option (String × List (QueuedTask V) × QueuedTask V)
  unfolding find_by_id
  find_source id [] = none
  find_source id ((name, d) ∷ m) = elim (find_by_id id d) [
    | some t ↦ some (name, d, t)
    | none ↦ find_source id m
  ]

  -- The body of `move` at the task: `queue` is the source's deque as the call found it, so where
  -- source and target are one, `enqueue` appends to that very deque before it stores a sorted copy.
  unfoldable pub move_found :
      String → String → List (QueuedTask V) → QueuedTask V → MapQueue V → MapQueue V
  unfolding enqueue
  move_found target source queue t q =
      let moved = record t { queue_name = target } in
      let after = enqueue moved (record q { queues = Dict.insert source queue q.queues }) in
      elim (ite (text_dec source target) (queue ++ moved ∷ []) queue) [
        | [] ↦ record after { queues = Dict.delete source after.queues }
        | _ ∷ _ ↦ after
      ]

  unfoldable pub move : String → String → Action (MapQueue V) (Unit {0})
  unfolding find_source list_remove move_found
  move id target q = elim (find_source id q.queues) [
    | none ↦ (q, raise (tlo_error queue_empty_error))
    | some (source, queue, t) ↦ elim (list_remove t queue) [
      | ok queue' ↦ (move_found target source queue' t q, ok tt)
      | raise e ↦ (q, raise e)
    ]
  ]

  -- The loop of `bulk_peek`, with the tasks found so far; `break` once the limit is reached.
  unfoldable pub bulk_peek_loop :
      ℕ → Option ℕ → List (QueuedTask V) → List (QueuedTask V) → List (QueuedTask V)
  bulk_peek_loop now limit eligible [] = eligible
  bulk_peek_loop now limit eligible (t ∷ ts) =
      let found = eligible ++ t ∷ [] in
      let rest = bulk_peek_loop now limit found ts in
      if is_deferred now t
      then bulk_peek_loop now limit eligible ts
      else elim limit [ none ↦ rest | some n ↦ if leb n (length found) then found else rest ]

  unfoldable pub bulk_peek :
      Option String → Option ℕ → ℕ → MapQueue V → MapQueue V × List (QueuedTask V)
  unfolding bulk_peek_loop name_or_default
  bulk_peek queue_name limit now q =
      let name = name_or_default queue_name q.default_queue in
      (
        record q { queues = touch name q.queues },
        bulk_peek_loop now limit [] (deque_of name q.queues),
      )

  unfoldable pub len : MapQueue V → ℕ
  len q = total (Dict.values q.queues)

  unfoldable pub total_tasks_by_queue : MapQueue V → Dict ℕ
  total_tasks_by_queue q = map (λ e. (e.0, length e.1)) q.queues

  unfoldable pub total_tasks : MapQueue V → ℕ
  unfolding len
  total_tasks q = len q
