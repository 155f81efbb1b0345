-- ===== src/QueueLaws.antt =====
-- What the executor and the orchestrator rely on of a queue, whichever class implements it.
pub mod Simple
pub mod Deques
pub mod Map
use tlo.Prelude.{String, ℕ, suc, ◌≡◌, ◌≢◌, ◌↔◌, ◌⊎◌, false, some, List, [], All, length}
use tlo.Errors.{Action, ok, raise, tlo_error, queue_empty_error}
use tlo.Task.{Values, QueuedTask}
use tlo.Queue.Order.{is_eligible}
use tlo.System.{QueueProtocol}

-- A call takes a task out of the queue, which holds the others.
pub record Gives {V : Values} {Queue : Type 0} (items : Queue → List (QueuedTask V))
    (call : Action Queue (QueuedTask V)) (q : Queue) : Type 1 where
  pub task : QueuedTask V
  pub rest : Queue
  pub taken : call q ≡ (rest, ok task)
  pub fewer : length (items q) ≡ suc (length (items rest))
  pub same : (R : QueuedTask V → Type 0) → All R (items q) ↔ (R task × All R (items rest))

-- A call says that the queue is empty, which holds what it held.
pub record Declines {V : Values} {Queue : Type 0} (items : Queue → List (QueuedTask V))
    (holds : String → Queue → List (QueuedTask V)) (call : Action Queue (QueuedTask V)) (q : Queue)
    : Type 1 where
  pub rest : Queue
  pub empty : call q ≡ (rest, raise (tlo_error queue_empty_error))
  pub same : items rest ≡ items q
  pub alike : (name : String) → holds name rest ≡ holds name q

module _ {V : Values} (P : QueueProtocol V) (items : P.Queue → List (QueuedTask V))
    (name : String) where
  -- `dequeue_any_unsafe` on the queue of a name.
  abbrev pub Takes : P.Queue → Type 1
  Takes q = Gives items (P.dequeue_any_unsafe (some name)) q

  abbrev pub Refuses : (String → P.Queue → List (QueuedTask V)) → P.Queue → Type 1
  Refuses holds q = Declines items holds (P.dequeue_any_unsafe (some name)) q

pub record QueueLaws {V : Values} (P : QueueProtocol V) : Type 1 where
  pub items : P.Queue → List (QueuedTask V)
  -- The tasks of the queue of a name.
  pub holds : String → P.Queue → List (QueuedTask V)
  pub IsValid : P.Queue → Type 0
  pub default_queue-enqueue :
      (task : QueuedTask V) (q : P.Queue) → P.default_queue (P.enqueue task q) ≡ P.default_queue q
  pub default_queue-dequeue :
      (name : String) (now : ℕ) (q : P.Queue)
      → P.default_queue (P.dequeue (some name) now q).0 ≡ P.default_queue q
  pub default_queue-dequeue_any :
      (name : String) (q : P.Queue)
      → P.default_queue (P.dequeue_any_unsafe (some name) q).0 ≡ P.default_queue q
  pub enqueue_same :
      (R : QueuedTask V → Type 0) (task : QueuedTask V) (q : P.Queue)
      → All R (items (P.enqueue task q)) ↔ (R task × All R (items q))
  pub length-enqueue :
      (task : QueuedTask V) (q : P.Queue)
      → length (items (P.enqueue task q)) ≡ suc (length (items q))
  pub enqueue-IsValid :
      (task : QueuedTask V) (q : P.Queue)
      → task.queue_name ≢ ""
      → IsValid q
      → IsValid (P.enqueue task q)
  pub dequeue_any_cases :
      (name : String) (q : P.Queue) → Takes P items name q ⊎ Refuses P items name holds q
  pub dequeue_any-IsValid :
      (name : String) (q : P.Queue) → IsValid q → IsValid (P.dequeue_any_unsafe (some name) q).0
  pub dequeue_cases :
      (name : String) (now : ℕ) (q : P.Queue)
      → Gives items (P.dequeue (some name) now) q
        ⊎ (Declines items holds (P.dequeue (some name) now) q
            × (name ≢ "" → All (λ t. is_eligible now t ≡ false) (holds name q)))
  pub dequeue-IsValid :
      (name : String) (now : ℕ) (q : P.Queue) → IsValid q → IsValid (P.dequeue (some name) now q).0
  -- A queue that is counted with tasks has one to give, and what is not counted is not there.
  pub counted :
      (q : P.Queue)
      → IsValid q
      → All (λ e. (e.1 ≡ 0) ⊎ Takes P items e.0 q) (P.total_tasks_by_queue q)
  -- Each task is in a queue that is counted.
  pub held :
      (R : QueuedTask V → Type 0) (q : P.Queue)
      → IsValid q
      → All (λ e. (e.1 ≡ 0) ⊎ (e.0 ≢ "" → All R (holds e.0 q))) (P.total_tasks_by_queue q)
      → All R (items q)
  pub all_counted : (q : P.Queue) → All (λ e. e.1 ≡ 0) (P.total_tasks_by_queue q) → items q ≡ []
