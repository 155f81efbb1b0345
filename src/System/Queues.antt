-- ===== src/System/Queues.antt =====
-- The two classes of queue/queue.py as implementations of its QueueProtocol.
use tlo.Errors.{ok}
use tlo.Task.{Values}
use tlo.Queue.Simple.{SimpleInMemoryQueue}
use tlo.Queue.Simple
use tlo.Queue.Map.{MapQueue}
use tlo.Queue.Map
use tlo.System.{QueueProtocol}

abbrev pub simple_queue : (V : Values) → QueueProtocol V
simple_queue V = record {
  Queue = SimpleInMemoryQueue V;
  default_queue = λ q. q.default_queue;
  enqueue = Simple.enqueue;
  dequeue = Simple.dequeue;
  dequeue_any_unsafe = Simple.dequeue_any_unsafe;
  peek = λ name now q. (q, ok (Simple.peek name now q));
  bulk_peek = λ name limit now q. (q, ok (Simple.bulk_peek name limit now q));
  remove = Simple.remove;
  reschedule = Simple.reschedule;
  move = Simple.move;
  total_tasks = Simple.total_tasks;
  total_tasks_by_queue = Simple.total_tasks_by_queue;
}

abbrev pub map_queue : (V : Values) → QueueProtocol V
map_queue V = record {
  Queue = MapQueue V;
  default_queue = λ q. q.default_queue;
  enqueue = Map.enqueue;
  dequeue = Map.dequeue;
  dequeue_any_unsafe = Map.dequeue_any_unsafe;
  peek = Map.peek;
  bulk_peek = λ name limit now q. let (q', ts) = Map.bulk_peek name limit now q in (q', ok ts);
  remove = Map.remove;
  reschedule = Map.reschedule;
  move = Map.move;
  total_tasks = Map.total_tasks;
  total_tasks_by_queue = Map.total_tasks_by_queue;
}
