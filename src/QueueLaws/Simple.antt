-- ===== src/QueueLaws/Simple.antt =====
-- SimpleInMemoryQueue keeps the laws of a queue, where no task stands under the empty name: that
-- name is read as the default queue's, so its tasks are counted and cannot be taken out.
mod Counts
use tlo.Prelude.{
  All-split, length-append, String, ℕ, suc, ◌+◌, ◌≡◌, ◌≢◌, ◌↔◌, refl, ap, ◌∙◌, Option, none, some,
  List, [], ◌∷◌, ◌⊎◌, inl, inr, All, All-imp, All-both, All-append, ◌++◌, length, text_dec, ite,
  arith, subst, if_neg, sym, false, Bool, All-insert, length-insert, split_first, split_first-Split,
  missing, found,
}
use tlo.Prelude.Dict
use tlo.Prelude.Dict.{Dict}
use tlo.Task.{Values, QueuedTask}
use tlo.Prelude.Sort.{All-sort_by, sort_by-All, length-sort_by}
use tlo.Queue.Order.{name_or_default, queue_sort_key, is_eligible, select}
use tlo.Queue.Simple.{SimpleInMemoryQueue, dequeue, dequeue_any_unsafe, pop_named, count_names}
use tlo.Queue.Simple
use tlo.Queue.Simple.Next.{dequeue_any_unsafe-pop_named, dequeue-split_first, is_ready, answer}
use tlo.System.Queues.{simple_queue}
use tlo.QueueLaws.{QueueLaws, Gives, Declines, Takes, Refuses}
use tlo.QueueLaws.Simple.Counts.{
  Pops, nothing, first, pops, present, count_names-All, count_names-names, selected,
  all_counted_lem,
}

module _ {V : Values} where
  abbrev pub items : SimpleInMemoryQueue V → List (QueuedTask V)
  items q = q.tasks

  abbrev pub IsNamed : SimpleInMemoryQueue V → Type 0
  IsNamed q = All (λ t. t.queue_name ≢ "") q.tasks

  abbrev pub holds : String → SimpleInMemoryQueue V → List (QueuedTask V)
  holds name q = select name q.tasks

  waits_named :
      (n : String) (now : ℕ) (ts : List (QueuedTask V))
      → All (λ t. is_ready n now t ≡ false) ts
      → All (λ t. is_eligible now t ≡ false) (select n ts)
  waits_named n now [] h = tt
  waits_named n now (t ∷ ts) h = ground (arith, h.0, waits_named n now ts h.1)

  module _ (name : String) (q : SimpleInMemoryQueue V) where
    abbrev real_name : String
    real_name = name_or_default (some name) q.default_queue

    own_name : name ≢ "" → real_name ≡ name
    unfolding name_or_default
    own_name ne = if_neg (text_dec name "") ne q.default_queue name

    answered :
        (o : Option (QueuedTask V × List (QueuedTask V)))
        → pop_named real_name q.tasks ≡ o
        → dequeue_any_unsafe (some name) q ≡ answer q o
    answered o e = dequeue_any_unsafe-pop_named (some name) q ∙ ap (answer q) e

    took_first :
        (t : QueuedTask V) (rest : List (QueuedTask V))
        → pop_named real_name q.tasks ≡ some (t, rest)
        → length q.tasks ≡ suc (length rest)
        → ((R : QueuedTask V → Type 0) → All R q.tasks ↔ (R t × All R rest))
        → Takes (simple_queue V) items name q
    took_first t rest e l same = record {
      task = t;
      rest = record q { tasks = rest };
      taken = answered (some (t, rest)) e;
      fewer = l;
      same = same;
    }

    pub cases_lem :
        Takes (simple_queue V) items name q ⊎ Refuses (simple_queue V) items name holds q
    cases_lem = elim (pops real_name q.tasks) [
      | nothing e h ↦
          inr (record { rest = q; empty = answered none e; same = refl; alike = λ n. refl })
      | first t rest e l same ↦ inl (took_first t rest e l same)
    ]

    pub valid_lem : IsNamed q → IsNamed (dequeue_any_unsafe (some name) q).0
    valid_lem h = elim (pops real_name q.tasks) [
      | nothing e _ ↦ rw (answered none e) h
      | first t rest e l same ↦ rw (answered (some (t, rest)) e) ((same _).0 h).1
    ]

    -- `dequeue` takes out the first ready task.
    module _ (now : ℕ) where
      abbrev ready : QueuedTask V → Bool
      ready = is_ready real_name now

      found_first :
          (t : QueuedTask V) (before after : List (QueuedTask V))
          → q.tasks ≡ before ++ t ∷ after
          → split_first ready q.tasks ≡ some (t, before ++ after)
          → Gives items (dequeue (some name) now) q
      found_first t before after e f = record {
        task = t;
        rest = record q { tasks = before ++ after };
        taken = dequeue-split_first (some name) now q ∙ ap (answer q) f;
        fewer = ap length e ∙ length-insert before t after;
        same = λ R.
            subst (λ ts. All R ts ↔ (R t × All R (before ++ after))) (sym e)
              (All-insert R before t after);
      }

      pub ready_cases :
          Gives items (dequeue (some name) now) q
          ⊎ (Declines items holds (dequeue (some name) now) q
              × (name ≢ "" → All (λ t. is_eligible now t ≡ false) (holds name q)))
      ready_cases = elim (split_first-Split ready q.tasks) [
        | missing h f ↦ inr (
          record {
            rest = q;
            empty = dequeue-split_first (some name) now q ∙ ap (answer q) f;
            same = refl;
            alike = λ n. refl;
          },
          λ ne.
              subst (λ n. All (λ t. is_eligible now t ≡ false) (select n q.tasks)) (own_name ne)
                (waits_named real_name now q.tasks h),
        )
        | found before t after p fail pass f ↦ inl (found_first t before after p f)
      ]

      pub dequeue-IsValid : IsNamed q → IsNamed (dequeue (some name) now q).0
      dequeue-IsValid h = elim ready_cases [
        | inl k ↦ rw (k.taken) ((k.same _).0 h).1
        | inr (k, _) ↦ rw (k.empty, k.same) h
      ]

    takes_lem :
        name ≢ "" → ¬ All (λ t. t.queue_name ≢ name) q.tasks → Takes (simple_queue V) items name q
    takes_lem ne there = elim (pops real_name q.tasks) [
      | first t rest e l same ↦ took_first t rest e l same
      | nothing e h ↦
          absurd (there (subst (λ n. All (λ t. t.queue_name ≢ n) q.tasks) (own_name ne) h))
    ]

  abbrev CanTake : SimpleInMemoryQueue V → String → Type 1
  CanTake q name = Takes (simple_queue V) items name q

  pub counted_lem :
      (q : SimpleInMemoryQueue V)
      → IsNamed q
      → All (λ e. (e.1 ≡ 0) ⊎ CanTake q e.0) (Simple.total_tasks_by_queue q)
  unfolding Simple.total_tasks_by_queue
  counted_lem q h =
      All-imp (λ e. CanTake q e.0) _ (λ e k. inr k) (count_names [] q.tasks)
        (count_names-All (CanTake q) [] q.tasks tt (
          All-both _ _ (λ t. CanTake q t.queue_name)
            (λ t ne there. takes_lem t.queue_name q ne there) q.tasks h (present q.tasks)))

  -- What holds of each queue that is counted holds of each task.
  pub held_lem :
      (R : QueuedTask V → Type 0) (q : SimpleInMemoryQueue V)
      → IsNamed q
      → All (λ e. (e.1 ≡ 0) ⊎ (e.0 ≢ "" → All R (holds e.0 q))) (Simple.total_tasks_by_queue q)
      → All R q.tasks
  unfolding Simple.total_tasks_by_queue
  held_lem R q named h = selected R q.tasks (
      All-both (λ t. t.queue_name ≢ "" → All R (holds t.queue_name q)) (λ t. t.queue_name ≢ "")
        (λ t. All R (holds t.queue_name q)) (λ t f ne. f ne) q.tasks
        (count_names-names (λ n. n ≢ "" → All R (holds n q)) [] q.tasks h) named)

  pub none_counted_lem :
      (q : SimpleInMemoryQueue V)
      → All (λ e. e.1 ≡ 0) (Simple.total_tasks_by_queue q)
      → q.tasks ≡ []
  unfolding Simple.total_tasks_by_queue
  none_counted_lem q h = all_counted_lem q.tasks h

  default_queue-answer :
      (q : SimpleInMemoryQueue V) (o : Option (QueuedTask V × List (QueuedTask V)))
      → (answer q o).0.default_queue ≡ q.default_queue
  default_queue-answer q none = refl
  default_queue-answer q (some (t, rest)) = refl

  pub default_queue-dequeue :
      (name : String) (now : ℕ) (q : SimpleInMemoryQueue V)
      → (dequeue (some name) now q).0.default_queue ≡ q.default_queue
  default_queue-dequeue name now q =
      rw (dequeue-split_first (some name) now q) (default_queue-answer q _)

  pub default_queue-dequeue_any :
      (name : String) (q : SimpleInMemoryQueue V)
      → (dequeue_any_unsafe (some name) q).0.default_queue ≡ q.default_queue
  default_queue-dequeue_any name q =
      rw (dequeue_any_unsafe-pop_named (some name) q) (default_queue-answer q _)

  pub enqueue_same :
      (R : QueuedTask V → Type 0) (task : QueuedTask V) (q : SimpleInMemoryQueue V)
      → All R (Simple.enqueue task q).tasks ↔ (R task × All R q.tasks)
  unfolding Simple.enqueue
  enqueue_same R task q = (
    λ h.
        let (a, b) =
          All-split R q.tasks (task ∷ []) (sort_by-All queue_sort_key R (q.tasks ++ task ∷ []) h) in
        (b.0, a),
    λ a.
        All-sort_by queue_sort_key R (q.tasks ++ task ∷ [])
          (All-append R q.tasks (task ∷ []) a.1 (a.0, tt)),
  )

  pub length-enqueue :
      (task : QueuedTask V) (q : SimpleInMemoryQueue V)
      → length (Simple.enqueue task q).tasks ≡ suc (length q.tasks)
  unfolding Simple.enqueue
  length-enqueue task q = omega (
    arith,
    length-sort_by queue_sort_key (q.tasks ++ task ∷ []),
    length-append q.tasks (task ∷ []),
  )

  pub default_queue-enqueue :
      (task : QueuedTask V) (q : SimpleInMemoryQueue V)
      → (Simple.enqueue task q).default_queue ≡ q.default_queue
  unfolding Simple.enqueue
  default_queue-enqueue task q = refl

abbrev pub simple_laws : (V : Values) → QueueLaws (simple_queue V)
simple_laws V = record {
  items = items;
  holds = holds;
  IsValid = IsNamed;
  default_queue-enqueue = default_queue-enqueue;
  default_queue-dequeue = default_queue-dequeue;
  default_queue-dequeue_any = default_queue-dequeue_any;
  enqueue_same = enqueue_same;
  length-enqueue = length-enqueue;
  enqueue-IsValid = λ task q ne v. (enqueue_same (λ t. t.queue_name ≢ "") task q).1 (ne, v);
  dequeue_any_cases = cases_lem;
  dequeue_any-IsValid = valid_lem;
  dequeue_cases = λ name now q. ready_cases name q now;
  dequeue-IsValid = λ name now q. dequeue-IsValid name q now;
  counted = counted_lem;
  held = held_lem;
  all_counted = none_counted_lem;
}
