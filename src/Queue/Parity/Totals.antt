-- ===== src/Queue/Parity/Totals.antt =====
-- The counts of the two queues.
use tlo.Prelude.{
  String, ℕ, ◌+◌, ◌≡◌, refl, ap, none, some, List, [], ◌∷◌, text_dec, ite, map, length, arith,
}
use tlo.Prelude.Dict
use tlo.Prelude.Dict.{Dict}
use tlo.Task.{Values, QueuedTask}
use tlo.Queue.Order.{select}
use tlo.Queue.Simple.{SimpleInMemoryQueue, count_names}
use tlo.Queue.Simple
use tlo.Queue.Map.{MapQueue, deque_of}
use tlo.Queue.Map
use tlo.Queue.Parity.{Agrees}

-- `counts.get(name, 0)`
pub counted : String → Dict ℕ → ℕ
counted name counts = elim (Dict.lookup name counts) [ some n ↦ n | none ↦ 0 ]

counted-add_one :
    (name k : String) (counts : Dict ℕ)
    → counted name (Dict.add_one k counts)
      ≡ ite (text_dec k name) (counted name counts + 1) (counted name counts)
unfolding counted Dict.add_one Dict.lookup
counted-add_one name k [] = ground arith
counted-add_one name k ((j, n) ∷ counts) = ground (arith, counted-add_one name k counts)

module _ {V : Values} where
  counted-count_names :
      (name : String) (counts : Dict ℕ) (ts : List (QueuedTask V))
      → counted name (count_names counts ts) ≡ counted name counts + length (select name ts)
  unfolding count_names
  counted-count_names name counts [] = omega arith
  counted-count_names name counts (t ∷ ts) = ground (
    arith,
    counted-count_names name (Dict.add_one t.queue_name counts) ts,
    counted-add_one name t.queue_name counts,
  )

  counted-lengths :
      (name : String) (queues : Dict (List (QueuedTask V)))
      → counted name (map (λ e. (e.0, length e.1)) queues) ≡ length (deque_of name queues)
  unfolding counted deque_of Dict.lookup
  counted-lengths name [] = refl
  counted-lengths name ((k, d) ∷ queues) = ground (arith, counted-lengths name queues)

  -- Where the queues agree, total_tasks_by_queue gives each name the same count on both, where a
  -- name that is missing counts as 0.
  pub total_tasks_by_queue-Agrees :
      (s : SimpleInMemoryQueue V) (m : MapQueue V) (name : String)
      → Agrees s m
      → counted name (Simple.total_tasks_by_queue s) ≡ counted name (Map.total_tasks_by_queue m)
  unfolding Simple.total_tasks_by_queue Map.total_tasks_by_queue counted Dict.lookup
  total_tasks_by_queue-Agrees s m name a =
      let none_yet : counted name [] ≡ 0 = refl in
      omega (
        arith,
        none_yet,
        counted-count_names name [] s.tasks,
        ap length (a.deques name),
        counted-lengths name m.queues,
      )
