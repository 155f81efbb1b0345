-- ===== src/Queue/Parity.antt =====
-- The two queues against one another: what SimpleInMemoryQueue keeps in one list, MapQueue keeps in a
-- deque for each name.
pub mod Peeks
pub mod Steps
pub mod Updates
pub mod Runs
pub mod Totals
use tlo.Prelude.{
  String, ℕ, ◌≡◌, refl, sym, ap, Option, none, some, List, [], ◌∷◌, ◌++◌, text_dec, ite, All, arith,
  ◌∙◌,
}
use tlo.Prelude.Sort.{IsSorted, sort_by}
use tlo.Prelude.Dict
use tlo.Prelude.Dict.{Dict}
use tlo.Task.{Values, QueuedTask}
use tlo.Queue.Order.{queue_sort_key, select}
use tlo.Queue.Simple.{SimpleInMemoryQueue}
use tlo.Queue.Map.{MapQueue, deque_of, touch, put}

module _ {V : Values} where
  -- The list is sorted, and each deque holds the tasks of its name in the order of the list.
  pub record Agrees (s : SimpleInMemoryQueue V) (m : MapQueue V) : Type 0 where
    pub default : m.default_queue ≡ s.default_queue
    pub sorted : IsSorted queue_sort_key s.tasks
    pub deques : (name : String) → deque_of name m.queues ≡ select name s.tasks

  pub deque_of-touch :
      (j n : String) (m : Dict (List (QueuedTask V))) → deque_of j (touch n m) ≡ deque_of j m
  unfolding touch deque_of
  deque_of-touch j n m = ground (arith, Dict.lookup-insert n j [] m)

  pub deque_of-put :
      (j n : String) (d : List (QueuedTask V)) (m : Dict (List (QueuedTask V)))
      → deque_of j (put n d m) ≡ ite (text_dec n j) d (deque_of j m)
  unfolding put deque_of
  deque_of-put j n d m = ground (arith, Dict.lookup-insert n j d (touch n m), deque_of-touch j n m)
