-- ===== src/Queue/Parity/Steps.antt =====
-- Each operation keeps the two queues in agreement and answers alike.
use tlo.Prelude.{
  String, ℕ, ◌≡◌, ◌≢◌, refl, sym, ap, Option, some, List, [], ◌∷◌, ◌++◌, text_dec, ite, All, ◌∙◌,
  length, if_pos, if_neg,
}
use mathlib.Core.List.{filter-append, append-nil}
use tlo.Prelude.Sort.{sort_by-IsSorted, filter-sort_by, filter-IsSorted, sort_by_of_IsSorted}
use tlo.Errors.{Result, ok}
use tlo.Task.{Values, QueuedTask}
use tlo.Queue.Order.{name_or_default, queue_sort_key, select}
use tlo.Queue.Simple.{SimpleInMemoryQueue, sort_tasks}
use tlo.Queue.Simple
use tlo.Queue.Simple.Next.{
  dequeue_any_unsafe-pop_named, dequeue-split_first, peek-split_first, empty, first, pop_named-Pops,
}
use tlo.Queue.Map.{MapQueue, deque_of, touch, put, dequeue_loop, peek_loop}
use tlo.Queue.Map
use tlo.Queue.Map.Rotation.{dequeue_loop_idle, dequeue_loop_ready, peek_loop_idle, peek_loop_ready}
use tlo.Queue.Started.{IsStarted, idle, head, split_first-Heads}
use tlo.Queue.Parity.{Agrees, deque_of-put}

module _ {V : Values} (s : SimpleInMemoryQueue V) (m : MapQueue V) (a : Agrees s m) where
  select-enqueue :
      (item : QueuedTask V) (j : String)
      → select j (sort_tasks (s.tasks ++ item ∷ []))
        ≡ sort_tasks (select j s.tasks ++ select j (item ∷ []))
  select-enqueue item j =
      filter-sort_by queue_sort_key (λ t. text_dec t.queue_name j) (s.tasks ++ item ∷ [])
      ∙ ap sort_tasks (filter-append (λ t. text_dec t.queue_name j) s.tasks (item ∷ []))

  select_sorted : (j : String) → sort_tasks (select j s.tasks) ≡ select j s.tasks
  select_sorted j =
      sort_by_of_IsSorted queue_sort_key (select j s.tasks)
        (filter-IsSorted queue_sort_key (λ t. text_dec t.queue_name j) s.tasks a.sorted)

  -- Where the queues agree, they agree after the same task is enqueued in both: sorting one list
  -- comes to sorting the deque of each name.
  pub enqueue-Agrees : (item : QueuedTask V) → Agrees (Simple.enqueue item s) (Map.enqueue item m)
  unfolding Simple.enqueue Map.enqueue
  enqueue-Agrees item = record {
    default = a.default;
    sorted = sort_by-IsSorted queue_sort_key (s.tasks ++ item ∷ []);
    deques = λ j. deque_of-put j item.queue_name _ m.queues ∙ rest j;
  }
    where
      rest :
          (j : String)
          → ite
              (text_dec item.queue_name j)
              (sort_tasks (deque_of item.queue_name m.queues ++ item ∷ []))
              (deque_of j m.queues)
            ≡ select j (sort_tasks (s.tasks ++ item ∷ []))
      rest j = rw (select-enqueue item j) (elim (text_dec item.queue_name j) [
        | yes p ↦ rw (if_pos _ p, if_pos _ p, a.deques item.queue_name, p)
        | no p ↦ rw (if_neg _ p, if_neg _ p, append-nil, select_sorted j) (a.deques j)
      ])

  -- A deque is replaced by the tasks that the list then holds under that name.
  deques_after :
      (n : String) (d : List (QueuedTask V)) (rest : List (QueuedTask V))
      → d ≡ select n rest
      → ((j : String) → n ≢ j → select j rest ≡ select j s.tasks)
      → (j : String) → deque_of j (put n d m.queues) ≡ select j rest
  deques_after n d rest e others j = rw deque_of-put (elim (text_dec n j) [
    | yes p ↦ rw (if_pos _ p) (e ∙ ap (λ k. select k rest) p)
    | no p ↦ rw (if_neg _ p) (a.deques j ∙ sym (others j p))
  ])

  module _ (name : Option String) (now : ℕ) where
    abbrev n : String
    n = name_or_default name s.default_queue

    map_dequeue :
        (d' : List (QueuedTask V)) (r : Result (QueuedTask V))
        → dequeue_loop now (length (select n s.tasks)) (select n s.tasks) ≡ (d', r)
        → Map.dequeue name now m ≡ (record m { queues = put n d' m.queues }, r)
    unfolding Map.dequeue
    map_dequeue d' r e = rw (a.default, a.deques n, e)

    -- Where the queues agree and every task was enqueued by now, dequeue gives the same task or
    -- error on both, and they agree behind it.
    pub dequeue-Agrees :
        All (IsStarted now) s.tasks
        → ((Map.dequeue name now m).1 ≡ (Simple.dequeue name now s).1)
          × Agrees (Simple.dequeue name now s).0 (Map.dequeue name now m).0
    dequeue-Agrees started = elim (split_first-Heads now n s.tasks a.sorted started) [
      | idle h e ↦
          let loop = map_dequeue _ _ (dequeue_loop_idle now (select n s.tasks) h) in
          rw (dequeue-split_first, e, loop)
            (
              refl,
              record {
                default = a.default;
                sorted = a.sorted;
                deques = deques_after n (select n s.tasks) s.tasks refl (λ j h. refl);
              },
            )
      | head t rest e el sel others above sorted ↦
          let turned = rw append-nil at (dequeue_loop_ready now [] t (select n rest) tt el) in
          let loop = map_dequeue (select n rest) (ok t) (rw sel turned) in
          rw (dequeue-split_first, e, loop)
            (
              refl,
              record {
                default = a.default;
                sorted = sorted;
                deques = deques_after n (select n rest) rest refl others;
              },
            )
    ]

    map_peek :
        (d' : List (QueuedTask V)) (r : Result (Option (QueuedTask V)))
        → peek_loop now (length (select n s.tasks)) (select n s.tasks) ≡ (d', r)
        → Map.peek name now m ≡ (record m { queues = put n d' m.queues }, r)
    unfolding Map.peek
    map_peek d' r e = rw (a.default, a.deques n, e)

    -- Where the queues agree and every task was enqueued by now, peek gives the same task or none
    -- on both, and MapQueue still agrees with the list behind it: a rotation is not left over.
    pub peek-Agrees :
        All (IsStarted now) s.tasks
        → ((Map.peek name now m).1 ≡ ok (Simple.peek name now s)) × Agrees s (Map.peek name now m).0
    peek-Agrees started = elim (split_first-Heads now n s.tasks a.sorted started) [
      | idle h e ↦
          let loop = map_peek _ _ (peek_loop_idle now (select n s.tasks) h) in
          rw (peek-split_first, e, loop) (refl, kept)
      | head t rest e el sel others above sorted ↦
          let turned = rw append-nil at (peek_loop_ready now [] t (select n rest) tt el) in
          let loop = map_peek (t ∷ select n rest) (ok (some t)) (rw sel turned) in
          rw (peek-split_first, e, loop, ← sel) (refl, kept)
    ]
      where
        kept : Agrees s (record m { queues = put n (select n s.tasks) m.queues })
        kept = record {
          default = a.default;
          sorted = a.sorted;
          deques = deques_after n (select n s.tasks) s.tasks refl (λ j h. refl);
        }

  module _ (name : Option String) where
    abbrev popped : String
    popped = name_or_default name s.default_queue

    map_pop :
        (d : List (QueuedTask V))
        → select popped s.tasks ≡ d
        → Map.dequeue_any_unsafe name m
          ≡ (record m { queues = put popped (Map.popleft d).0 m.queues }, (Map.popleft d).1)
    unfolding Map.dequeue_any_unsafe
    map_pop d e = rw (a.default, a.deques popped, e)

    -- Where the queues agree, dequeue_any_unsafe gives the same task or error on both, and they
    -- agree behind it.
    pub dequeue_any_unsafe-Agrees :
        ((Map.dequeue_any_unsafe name m).1 ≡ (Simple.dequeue_any_unsafe name s).1)
        × Agrees (Simple.dequeue_any_unsafe name s).0 (Map.dequeue_any_unsafe name m).0
    unfolding Map.popleft
    dequeue_any_unsafe-Agrees = elim (pop_named-Pops popped s.tasks a.sorted) [
      | empty h e ↦
          rw (dequeue_any_unsafe-pop_named, e, map_pop [] h)
            (
              refl,
              record {
                default = a.default;
                sorted = a.sorted;
                deques = deques_after popped [] s.tasks (sym h) (λ j h. refl);
              },
            )
      | first t rest e sel others above sorted ↦
          rw (dequeue_any_unsafe-pop_named, e, map_pop (t ∷ select popped rest) sel)
            (
              refl,
              record {
                default = a.default;
                sorted = sorted;
                deques = deques_after popped (select popped rest) rest refl others;
              },
            )
    ]
