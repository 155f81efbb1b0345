-- ===== src/System.antt =====
-- The objects that `Tlo.__init__` wires together, as one state, and the steps that its parts make on
-- it. The queue stands behind `QueueProtocol`; the clock and `uuid4` are streams that are read once
-- for each call.
pub mod Queues
use tlo.Prelude.{String, ℕ, suc, Bool, Option, List}
use tlo.Prelude.Dict.{Dict}
use tlo.Errors.{Result, ok, Action}
use tlo.Task.{Values, QueuedTask, Eta}
use tlo.Locking.{InMemoryLocker}
use tlo.StateStore.{InMemoryTaskStateStore}
use tlo.Registry.{TaskDef}

-- The operations of queue/queue.py's QueueProtocol. A call that reads the clock is given the time.
pub record QueueProtocol (V : Values) : Type 1 where
  pub Queue : Type 0
  pub default_queue : Queue → String
  pub enqueue : QueuedTask V → Queue → Queue
  pub dequeue : Option String → ℕ → Action Queue (QueuedTask V)
  pub dequeue_any_unsafe : Option String → Action Queue (QueuedTask V)
  pub peek : Option String → ℕ → Action Queue (Option (QueuedTask V))
  pub bulk_peek : Option String → Option ℕ → ℕ → Action Queue (List (QueuedTask V))
  pub remove : String → Action Queue (Unit {0})
  pub reschedule : String → Eta → Action Queue (Unit {0})
  pub move : String → String → Action Queue (Unit {0})
  pub total_tasks : Queue → ℕ
  pub total_tasks_by_queue : Queue → Dict ℕ

pub data StopBehavior : Type 0 where
  drain cancel ignore : StopBehavior

-- The fields of TloSettings that the parts read at run time; `tick_interval` is in microseconds.
pub record Settings : Type 0 where
  pub tick_interval : ℕ
  pub default_queue : String
  pub stop_behavior : StopBehavior
  pub panic_mode : Bool

pub record System {V : Values} (P : QueueProtocol V) : Type 0 where
  pub settings : Settings
  pub tasks : Dict (TaskDef V)
  pub store : InMemoryTaskStateStore V
  pub queue : P.Queue
  pub locker : InMemoryLocker
  pub last_run : Dict ℕ
  pub running : Bool
  pub times : ℕ → ℕ
  pub reads : ℕ
  pub uuids : ℕ → String
  pub drawn : ℕ

module _ {V : Values} {P : QueueProtocol V} where
  -- `datetime.now(UTC)`
  abbrev pub now : Action (System P) ℕ
  now s = (record s { reads = suc s.reads }, ok (s.times s.reads))

  -- `str(uuid.uuid4())`
  abbrev pub uuid4 : Action (System P) String
  uuid4 s = (record s { drawn = suc s.drawn }, ok (s.uuids s.drawn))

  -- A call on one of the parts.
  abbrev pub on_store : {A : Type 0} → Action (InMemoryTaskStateStore V) A → Action (System P) A
  on_store m s = let (store', r) = m s.store in (record s { store = store' }, r)

  abbrev pub on_queue : {A : Type 0} → Action P.Queue A → Action (System P) A
  on_queue m s = let (queue', r) = m s.queue in (record s { queue = queue' }, r)

  abbrev pub on_tasks : {A : Type 0} → Action (Dict (TaskDef V)) A → Action (System P) A
  on_tasks m s = let (tasks', r) = m s.tasks in (record s { tasks = tasks' }, r)

  -- A call that only reads the state.
  abbrev pub asks : {A : Type 0} → (System P → Result A) → Action (System P) A
  asks f s = (s, f s)

  abbrev pub enqueue : QueuedTask V → Action (System P) (Unit {0})
  enqueue task s = (record s { queue = P.enqueue task s.queue }, ok tt)
