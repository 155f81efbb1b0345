-- ===== src/QueueLaws/Map.antt =====
-- MapQueue keeps the laws of a queue, where no deque under the empty name has a task: that name is
-- read as the default queue's.
mod Dequeue
use tlo.Prelude.{
  All-split, length-append, suc, ◌↔◌, String, ℕ, ◌≡◌, ◌≢◌, refl, ap, sym, ◌∙◌, some, List, [], ◌∷◌,
  ◌⊎◌, inl, inr, All, All-imp, All-append, ◌++◌, length, text_dec, ite, arith, subst, if_neg, map,
  Option-cases, All-split, All-insert, length-append, true, false, split_first-Split, missing,
  found,
}
use tlo.Prelude.Dict
use tlo.Prelude.Dict.{Dict}
use tlo.Errors.{Result, ok, raise, tlo_error, queue_empty_error}
use tlo.Task.{Values, QueuedTask}
use tlo.Prelude.Sort.{All-sort_by, sort_by-All, length-sort_by}
use tlo.Queue.Order.{name_or_default, queue_sort_key, is_eligible}
use tlo.Queue.Simple.{sort_tasks}
use tlo.Queue.Map.{
  MapQueue, dequeue, dequeue_loop, dequeue_any_unsafe, popleft, deque_of, put, touch,
}
use tlo.Queue.Map
use tlo.Queue.Map.Rotation.{dequeue_loop_idle, dequeue_loop_ready}
use tlo.System.Queues.{map_queue}
use tlo.QueueLaws.{QueueLaws, Gives, Declines, Takes, Refuses}
use tlo.QueueLaws.Deques.{Queues, all_of, all_of-put_same, length-put, All-put}
use tlo.QueueLaws.Map.Dequeue.{
  items, holds, own_name, IsNamed, IsValid, takes_lem, cases_lem, valid_lem, ready_cases,
  dequeue-IsValid, put-IsNamed, put-IsDistinct,
}

module _ {V : Values} where
  named_takes :
      (name : String) (q : MapQueue V) (t : QueuedTask V) (d : List (QueuedTask V))
      → IsNamed (name, t ∷ d)
      → deque_of name q.queues ≡ t ∷ d
      → Takes (map_queue V) items name q
  named_takes name q t d n e =
      let ne : name ≢ "" = elim n [ inl z ↦ absurd (cc z) | inr k ↦ k ] in
      takes_lem name q t d (ap (λ k. deque_of k q.queues) (own_name name q ne) ∙ e)

  -- In a dict with distinct keys each entry is found under its key.
  all_found : (m : Queues V) → Dict.IsDistinct m → All (λ e. Dict.lookup e.0 m ≡ some e.1) m
  unfolding Dict.lookup
  all_found [] h = tt
  all_found ((j, d) ∷ m) h =
      (ground arith, All-imp _ _ (λ e f. ground (arith, f, h.0)) m (all_found m h.1))

  own_deque :
      (name : String) (d : List (QueuedTask V)) (q : MapQueue V)
      → Dict.lookup name q.queues ≡ some d
      → deque_of name q.queues ≡ d
  unfolding deque_of
  own_deque name d q f = rw (deque_of, f) refl

  counted_entry :
      (name : String) (d : List (QueuedTask V)) (q : MapQueue V)
      → IsNamed (name, d)
      → Dict.lookup name q.queues ≡ some d
      → (length d ≡ 0) ⊎ Takes (map_queue V) items name q
  unfolding deque_of
  counted_entry name [] q n f = inl refl
  counted_entry name (t ∷ d) q n f = inr (named_takes name q t d n (ground (arith, f)))

  pub counted_lem :
      (q : MapQueue V)
      → IsValid q
      → All (λ e. (e.1 ≡ 0) ⊎ Takes (map_queue V) items e.0 q) (Map.total_tasks_by_queue q)
  unfolding Map.total_tasks_by_queue
  counted_lem q v = counted q.queues v.named (all_found q.queues v.distinct)
    where
      counted :
          (m : Queues V)
          → All IsNamed m
          → All (λ e. Dict.lookup e.0 q.queues ≡ some e.1) m
          → All {A = String × ℕ}
              (λ e. (e.1 ≡ 0) ⊎ Takes (map_queue V) items e.0 q)
              (map (λ e. (e.0, length e.1)) m)
      counted [] n f = tt
      counted ((name, d) ∷ m) n f = (counted_entry name d q n.0 f.0, counted m n.1 f.1)

  -- What holds of each queue that is counted holds of each task.
  pub held_lem :
      (R : QueuedTask V → Type 0) (q : MapQueue V)
      → IsValid q
      → All (λ e. (e.1 ≡ 0) ⊎ (e.0 ≢ "" → All R (holds e.0 q))) (Map.total_tasks_by_queue q)
      → All R (items q)
  unfolding Map.total_tasks_by_queue all_of
  held_lem R q v h = each q.queues v.named (all_found q.queues v.distinct) h
    where
      one :
          (name : String) (d : List (QueuedTask V))
          → IsNamed (name, d)
          → Dict.lookup name q.queues ≡ some d
          → (length d ≡ 0) ⊎ (name ≢ "" → All R (holds name q))
          → All R d
      one name [] n f k = tt
      one name (t ∷ d) (inl z) f k = absurd (cc z)
      one name (t ∷ d) (inr ne) f (inl z) = absurd (omega (arith, z))
      one name (t ∷ d) (inr ne) f (inr k) = subst (All R) (own_deque name (t ∷ d) q f) (k ne)

      each :
          (m : Queues V)
          → All IsNamed m
          → All (λ e. Dict.lookup e.0 q.queues ≡ some e.1) m
          → All {A = String × ℕ}
              (λ e. (e.1 ≡ 0) ⊎ (e.0 ≢ "" → All R (holds e.0 q)))
              (map (λ e. (e.0, length e.1)) m)
          → All R (all_of m)
      each [] n f k = tt
      each ((name, d) ∷ m) n f k =
          All-append R d (all_of m) (one name d n.0 f.0 k.0) (each m n.1 f.1 k.1)

  none_counted :
      (m : Queues V)
      → All {A = String × ℕ} (λ e. e.1 ≡ 0) (map (λ e. (e.0, length e.1)) m)
      → all_of m ≡ []
  unfolding all_of
  none_counted [] h = refl
  none_counted ((j, []) ∷ m) h = none_counted m h.1
  none_counted ((j, t ∷ d) ∷ m) h = absurd (omega (arith, h.0))

  pub none_counted_lem :
      (q : MapQueue V) → All (λ e. e.1 ≡ 0) (Map.total_tasks_by_queue q) → items q ≡ []
  unfolding Map.total_tasks_by_queue
  none_counted_lem q h = none_counted q.queues h

  pub enqueue_same :
      (R : QueuedTask V → Type 0) (task : QueuedTask V) (q : MapQueue V)
      → All R (items (Map.enqueue task q)) ↔ (R task × All R (items q))
  unfolding Map.enqueue
  enqueue_same R task q =
      let d = deque_of task.queue_name q.queues in
      let (rest, (p, k)) = All-put task.queue_name (sort_tasks (d ++ task ∷ [])) q.queues R in
      (
        λ h.
            let (x, y) = k.0 h in
            let (a, b) =
              All-split R d (task ∷ []) (sort_by-All queue_sort_key R (d ++ task ∷ []) x) in
            (b.0, p.1 (a, y)),
        λ a.
            let (x, y) = p.0 a.1 in
            k.1 (
              All-sort_by queue_sort_key R (d ++ task ∷ [])
                  (All-append R d (task ∷ []) x (a.0, tt)),
              y,
            ),
      )

  pub length-enqueue :
      (task : QueuedTask V) (q : MapQueue V)
      → length (items (Map.enqueue task q)) ≡ suc (length (items q))
  unfolding Map.enqueue
  length-enqueue task q =
      let d = deque_of task.queue_name q.queues in
      omega (
        arith,
        length-put task.queue_name (sort_tasks (d ++ task ∷ [])) q.queues,
        length-sort_by queue_sort_key (d ++ task ∷ []),
        length-append d (task ∷ []),
      )

  pub enqueue-IsValid :
      (task : QueuedTask V) (q : MapQueue V)
      → task.queue_name ≢ ""
      → IsValid q
      → IsValid (Map.enqueue task q)
  unfolding Map.enqueue
  enqueue-IsValid task q ne v = record {
    distinct = put-IsDistinct task.queue_name _ q.queues v.distinct;
    named = put-IsNamed task.queue_name _ q.queues (inr ne) v.named;
  }

  pub default_queue-dequeue :
      (name : String) (now : ℕ) (q : MapQueue V)
      → (Map.dequeue (some name) now q).0.default_queue ≡ q.default_queue
  unfolding Map.dequeue
  default_queue-dequeue name now q = refl

  pub default_queue-dequeue_any :
      (name : String) (q : MapQueue V)
      → (Map.dequeue_any_unsafe (some name) q).0.default_queue ≡ q.default_queue
  unfolding Map.dequeue_any_unsafe
  default_queue-dequeue_any name q = refl

  pub default_queue-enqueue :
      (task : QueuedTask V) (q : MapQueue V) → (Map.enqueue task q).default_queue ≡ q.default_queue
  unfolding Map.enqueue
  default_queue-enqueue task q = refl

abbrev pub map_laws : (V : Values) → QueueLaws (map_queue V)
map_laws V = record {
  items = items;
  holds = holds;
  IsValid = IsValid;
  default_queue-enqueue = default_queue-enqueue;
  default_queue-dequeue = default_queue-dequeue;
  default_queue-dequeue_any = default_queue-dequeue_any;
  enqueue_same = enqueue_same;
  length-enqueue = length-enqueue;
  enqueue-IsValid = enqueue-IsValid;
  dequeue_any_cases = cases_lem;
  dequeue_any-IsValid = valid_lem;
  dequeue_cases = ready_cases;
  dequeue-IsValid = dequeue-IsValid;
  counted = counted_lem;
  held = held_lem;
  all_counted = none_counted_lem;
}
