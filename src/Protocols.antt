-- ===== src/Protocols.antt =====
-- The runtime-checkable protocols of the parts: the members that `isinstance` asks an object for whose
-- class does not inherit from the protocol.
use tlo.Prelude.{String, List, [], ◌∷◌}

abbrev pub task_registry_protocol : List String
task_registry_protocol =
    "register" ∷ "get_task" ∷ "list_tasks" ∷ "list_task_names" ∷ "contains_task" ∷ []

abbrev pub task_state_store_protocol : List String
task_state_store_protocol = "create" ∷ "update" ∷ "get" ∷ "delete" ∷ []

abbrev pub queue_protocol : List String
queue_protocol =
    "settings" ∷ "default_queue" ∷ "enqueue" ∷ "dequeue" ∷ "dequeue_any_unsafe" ∷ "peek" ∷ "remove"
    ∷ "reschedule" ∷ "move" ∷ "bulk_peek" ∷ "__len__" ∷ "total_tasks_by_queue" ∷ "total_tasks" ∷ []

abbrev pub scheduler_protocol : List String
scheduler_protocol = "tick" ∷ "get_task_last_run" ∷ "set_task_last_run" ∷ []

abbrev pub executor_protocol : List String
executor_protocol =
    "asynchronous" ∷ "run" ∷ "run_async" ∷ "is_running" ∷ "_start" ∷ "stop" ∷ "execute"
    ∷ "execute_async" ∷ "stop_task" ∷ "get_task_state" ∷ []

abbrev pub locker_protocol : List String
locker_protocol = "acquire" ∷ "release" ∷ "is_locked" ∷ "guard" ∷ []
