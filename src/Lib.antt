-- ===== src/Lib.antt =====
-- tlo: background tasks that a scheduler or a caller puts into a queue and an executor runs.
--
-- The parts, and how they interact. `Tlo` (src/tlo/orchestrator/orchestrator.py) wires together a
-- registry of task definitions, a store of task records, a queue, a locker, a scheduler and an
-- executor. A task enters the queue by `submit_task` or, if it is scheduled, by the scheduler's
-- `tick`, each time with a pending record of the same id in the store. The executor takes tasks out
-- of the queue, marks their records, calls their functions, and puts a task whose exclusive key is
-- held by another back into the queue.
--
--   Errors          src/tlo/errors.py, and calls that may raise: a step gives the state that is
--                   left and a value or an exception.
--   Task            src/tlo/queue/queued_item.py, src/tlo/task_state_store/common.py.
--   Calendar        the dates and weekdays of datetime, counted in days and minutes since
--                   1970-01-01.
--   Cron            CronSchedule of src/tlo/task_registry/task_def.py: a round of the loop of
--                   next_run_after is advance, the loop is search. Cron/Search is about its result.
--   Settings        src/tlo/settings.py, src/tlo/utils/coercers.py and src/tlo/common.py: the
--                   Loader is Settings/Load with Settings/Lookup, TloSettings is Settings/Tlo.
--                   Precedence, Kwargs and Nested are about the value of a field, Children about
--                   the variables of a nested path, Failures and Outcomes about exceptions,
--                   Environment about the names of variables, Scalar about types of fields.
--   Context         src/tlo/context.py, `Tlo.__init__` and src/tlo/utils/__init__.py; Context/Paths
--                   is about dotted paths, Context/Wiring about what one part is made of its
--                   setting, Context/Parts about the parts of a runtime.
--   Protocols       the runtime-checkable protocols of the parts, by the names of their members: of
--                   src/tlo/queue/queue.py and the files of the other parts.
--   Queue           src/tlo/queue/queue.py: SimpleInMemoryQueue is Queue/Simple and MapQueue is
--                   Queue/Map, an operation under its own name in each; what they share is in
--                   Queue/Order. `_next_task` is next_task. Queue/Parity relates the two (Peeks is
--                   about bulk_peek), with lemmas on sorted lists, ids and names in Queue/Started,
--                   ById and Unique.
--   Locking         src/tlo/locking/locker.py.
--   StateStore      src/tlo/task_state_store/state_store.py, with its specification in Refinement.
--   Registry        src/tlo/task_registry/registry.py and task_def.py; `_register` is store_task.
--   System          the state that `Tlo.__init__` wires together, and QueueProtocol, the interface
--                   by which the other parts use a queue; System/Queues gives its implementations.
--   QueueLaws       what executor and orchestrator rely on of a queue, whichever class it is;
--                   QueueLaws/Simple fills it for SimpleInMemoryQueue, QueueLaws/Map for MapQueue,
--                   with QueueLaws/Deques on the tasks in deques.
--   Scheduler       src/tlo/scheduler/scheduler.py: a round of the loop of `tick` is visit. Rate is
--                   about one task on an interval, CronRate about tasks on cron expressions, Due
--                   and Ticks about a whole tick, Invariant about what a tick keeps.
--   Executor        src/tlo/executor/executor.py, LocalExecutor: Executor/Execute and
--                   Executor/Outcome are about one task, Executor/Sweep about a loop over the
--                   queues, whatever it does with a task, Executor/Pending about what such a loop
--                   keeps, Executor/Cancel and Executor/Drain about the loops that cancel and
--                   drain, and about stop.
--   Orchestrator    src/tlo/orchestrator/orchestrator.py, with submissions in Orchestrator/Submit,
--                   Orchestrator/Pending and Orchestrator/Invariant, a task's whole way in
--                   Orchestrator/Served, and the runtime from its start in Orchestrator/Reachable,
--                   with what each call keeps in Sound and Kept.
--   Prelude         library names, lists, dicts in the order of insertion, and the stable sort.
--   Examples        a small program on which the theorems are applied.
--
-- State. An object's fields are a record that its methods take and give back; a task or a record
-- that the program changes in place is replaced where it is kept. Where a part keeps a second
-- reference, `MapQueue.move` within one queue appends to a deque it still holds, which move_found
-- writes out, and the executor keeps the record of the task it runs, which it stores again with
-- what it has set; a function that changes that very record in place is outside the model. A deque
-- or list of tasks is a list, a set a list of its keys. A call that reads the clock is given the
-- time (queues) or reads the next element of a stream (System), as does a call of `uuid4`. A
-- datetime is a number of microseconds since the epoch with no last one, so the OverflowError
-- beyond the year 9999 does not occur; the timestamps that callers pass are whole seconds.
--
-- Loops. The rotations of a deque run for its length, as in the program. The loops of the executor
-- that end when nothing makes progress (`_drain_queue`, `_cancel_pending_tasks`, `run`) take fuel
-- and give `none` when it is used up; the number of queued tasks and one is enough for
-- `_cancel_pending_tasks`, and for `_drain_queue` where the tasks' functions put nothing into the
-- queue and no queued task waits for a lock. The search of a cron schedule has fuel for each minute
-- of ten years and one, which is enough since each round goes at least a minute on. A settings
-- class is a finite tree of classes, so the loader ends; a class that contains itself is outside
-- the model.
--
-- Parameters. Values (Task) holds what the package only passes on: arguments, results, functions,
-- the formatter of templates, schedules that callers supply, and parse_cron of hv_utils. Calls
-- (Executor) is what a task's function does, to any part of the system. `float` is a parameter of
-- Settings/Tlo; the import of modules, the classes, their constructors, what a class inherits from
-- and which members an object has are parameters of Context. The case of letters is that of ASCII.
--
-- Not modelled: threads, the abstract classes' checks on subclasses, `as_dict` of settings, and
-- logging, which nothing depends on. Of settings classes: `__post_init__`, and a default_factory
-- that raises; a class is its fields, and its call raises the TypeError of a missing argument only.
-- Of exceptions: those outside Python's `Exception` (SystemExit, KeyboardInterrupt and
-- asyncio.CancelledError), which `_execute_task` lets through with the record still running, and
-- the OverflowError of `timedelta(seconds=n)` for a very large n. A timestamp with a fraction of a
-- second and a negative limit of bulk_peek are outside the model, too.
pub mod Prelude
pub mod Errors
pub mod Calendar
pub mod Context
pub mod Cron
pub mod Settings
pub mod Task
pub mod Protocols
pub mod Queue
pub mod Locking
pub mod StateStore
pub mod Registry
pub mod System
pub mod QueueLaws
pub mod Scheduler
pub mod Executor
pub mod Orchestrator
pub mod Examples
