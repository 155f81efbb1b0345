-- ===== src/Queue/Order.antt =====
-- What both queues share: the sort key, the default of a queue's name, the test on the ETA, and
-- `remove` of a list or deque.
use tlo.Prelude.{
  String, ℕ, ◌≡◌, Bool, true, false, Option, none, some, List, [], ◌∷◌, ltb, leb, text_dec, ite,
  if◌then◌else◌, filter, arith,
}
use tlo.Errors.{Result, ok, raise, value_error}
use tlo.Task.{Values, QueuedTask, task_eq}

-- `queue_name or self._settings.default_queue`: the empty name counts as none.
unfoldable pub name_or_default : Option String → String → String
name_or_default none default = default
name_or_default (some name) default = ite (text_dec name "") default name

pub name_or_default_twice :
    (name : Option String) (default : String)
    → name_or_default (some (name_or_default name default)) default ≡ name_or_default name default
unfolding name_or_default
name_or_default_twice none default = ground arith
name_or_default_twice (some name) default = ground arith

module _ {V : Values} where
  unfoldable pub queue_sort_key : QueuedTask V → ℕ
  queue_sort_key t = elim t.eta [ none ↦ t.enqueued_at | some eta ↦ eta ]

  -- `qt.eta is None or qt.eta <= now`
  unfoldable pub is_eligible : ℕ → QueuedTask V → Bool
  is_eligible now t = elim t.eta [ none ↦ true | some eta ↦ leb eta now ]

  -- `qt.eta is not None and qt.eta > now`
  unfoldable pub is_deferred : ℕ → QueuedTask V → Bool
  is_deferred now t = elim t.eta [ none ↦ false | some eta ↦ ltb now eta ]

  -- The tasks of one queue, in order.
  abbrev pub select : String → List (QueuedTask V) → List (QueuedTask V)
  select name = filter (λ t. text_dec t.queue_name name)

  -- `xs.remove(x)`: the first element that equals `x` is taken out.
  unfoldable pub list_remove : QueuedTask V → List (QueuedTask V) → Result (List (QueuedTask V))
  list_remove x [] = raise value_error
  list_remove x (t ∷ ts) =
      if task_eq t x
      then ok ts
      else elim (list_remove x ts) [ ok rest ↦ ok (t ∷ rest) | raise e ↦ raise e ]
