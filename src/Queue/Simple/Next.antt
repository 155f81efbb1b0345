-- ===== src/Queue/Simple/Next.antt =====
-- What SimpleInMemoryQueue hands out next.
use tlo.Prelude.{
  ◌≢◌, String, ℕ, ◌≡◌, refl, Bool, true, false, ◌&&◌, Option, none, some, List, [], ◌∷◌, ite,
  text_dec, split_first, Bool-cases, ◌⊎◌, inl, inr, arith,
}
use tlo.Prelude.Sort.{IsAbove, IsSorted}
use tlo.Errors.{Result, ok, raise, tlo_error, queue_empty_error}
use mathlib.Core.Option
use tlo.Prelude.Sort.{IsAbove, IsSorted}
use tlo.Task.{Values, QueuedTask, task_eq, task_eq_refl, task_eq-eq}
use tlo.Queue.Order.{
  queue_sort_key, name_or_default, name_or_default_twice, queue_sort_key, is_eligible, select,
  list_remove,
}
use tlo.Queue.Simple.{
  dequeue_any_unsafe, peek, pop_named, SimpleInMemoryQueue, first_ready, dequeue,
}

module _ {V : Values} where
  -- A task of the queue that may run now.
  abbrev pub is_ready : String → ℕ → QueuedTask V → Bool
  is_ready name now t = ite (text_dec t.queue_name name) true false && is_eligible now t

  is_ready-eq :
      (name : String) (now : ℕ) (t x : QueuedTask V)
      → task_eq t x ≡ true
      → is_ready name now t ≡ is_ready name now x
  unfolding is_eligible
  is_ready-eq name now t x e = let (_, n, eta) = task_eq-eq t x e in ground arith

  -- The two passes of `dequeue`, one that finds a task and one that takes out the first task that
  -- equals it, come to taking out the first ready task.
  Takes : String → ℕ → List (QueuedTask V) → Type 0
  Takes name now ts =
      ((first_ready now (select name ts) ≡ none) × (split_first (is_ready name now) ts ≡ none))
      ⊎ ((t : QueuedTask V) × (rest : List (QueuedTask V)) × (first_ready now (select name ts)
            ≡ some t)
          × (list_remove t ts ≡ ok rest)
          × (split_first (is_ready name now) ts ≡ some (t, rest))
          × (is_ready name now t ≡ true))

  takes : (name : String) (now : ℕ) (ts : List (QueuedTask V)) → Takes name now ts
  unfolding Takes first_ready list_remove is_eligible split_first
  takes name now [] = inl (refl, refl)
  takes name now (x ∷ ts) = elim (Bool-cases (is_ready name now x)) [
    | inl e ↦ inr (x, ts, ground arith, ground (arith, task_eq_refl x), ground arith, e)
    | inr e ↦ elim (takes name now ts) [
      | inl (f, g) ↦ inl (ground arith, ground arith)
      | inr (t, rest, f, g, h, r) ↦
          inr (t, x ∷ rest, ground arith, ground (arith, is_ready-eq name now x t), ground arith, r)
    ]
  ]

  -- The state and answer of a queue after it takes out a task, or finds none.
  abbrev pub answer :
      SimpleInMemoryQueue V
      → Option (QueuedTask V × List (QueuedTask V))
      → SimpleInMemoryQueue V × Result (QueuedTask V)
  answer q none = (q, raise (tlo_error queue_empty_error))
  answer q (some (t, rest)) = (record q { tasks = rest }, ok t)

  pub dequeue-split_first :
      (name : Option String) (now : ℕ) (q : SimpleInMemoryQueue V)
      → dequeue name now q
        ≡ answer q (split_first (is_ready (name_or_default name q.default_queue) now) q.tasks)
  unfolding dequeue Takes
  dequeue-split_first name now q =
      let n = name_or_default name q.default_queue in
      ground (arith, takes n now q.tasks, name_or_default_twice name q.default_queue)

  pub peek-split_first :
      (name : Option String) (now : ℕ) (q : SimpleInMemoryQueue V)
      → peek name now q
        ≡ Option.map
            (λ r. r.0)
            (split_first (is_ready (name_or_default name q.default_queue) now) q.tasks)
  unfolding peek Takes
  peek-split_first name now q =
      let n = name_or_default name q.default_queue in
      ground (arith, takes n now q.tasks, name_or_default_twice name q.default_queue)

  -- Taking out the first task of a queue, as the parts for each queue show it.
  pub data Pops (n : String) (ts : List (QueuedTask V))
      (o : Option (QueuedTask V × List (QueuedTask V))) : Type 0 where
    empty : select n ts ≡ [] → o ≡ none → Pops n ts o
    first :
        (t : QueuedTask V) (rest : List (QueuedTask V))
        → o ≡ some (t, rest)
        → select n ts ≡ t ∷ select n rest
        → ((j : String) → n ≢ j → select j rest ≡ select j ts)
        → ((k : ℕ) → IsAbove queue_sort_key k ts → IsAbove queue_sort_key k rest)
        → IsSorted queue_sort_key rest
        → Pops n ts o

  pub pop_named-Pops :
      (n : String) (ts : List (QueuedTask V))
      → IsSorted queue_sort_key ts
      → Pops n ts (pop_named n ts)
  unfolding pop_named
  pop_named-Pops n [] s = empty refl refl
  pop_named-Pops n (t ∷ ts) s = elim (text_dec t.queue_name n) [
    | yes p ↦ first t ts (ground arith) (ground arith) (λ j h. ground arith) (λ k b. b.1) s.1
    | no p ↦ elim (pop_named-Pops n ts s.1) [
      | empty h e ↦ empty (ground arith) (ground arith)
      | first u rest e sel others above sorted ↦
          first u (t ∷ rest) (ground arith) (ground arith) (λ j h. ground (arith, others j h))
            (λ k b. (b.0, above k b.1)) (above (queue_sort_key t) s.0, sorted)
    ]
  ]

  pub dequeue_any_unsafe-pop_named :
      (name : Option String) (q : SimpleInMemoryQueue V)
      → dequeue_any_unsafe name q
        ≡ answer q (pop_named (name_or_default name q.default_queue) q.tasks)
  unfolding dequeue_any_unsafe
  dequeue_any_unsafe-pop_named name q = ground arith
