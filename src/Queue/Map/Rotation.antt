-- ===== src/Queue/Map/Rotation.antt =====
-- The loops of MapQueue that rotate a deque until its head is eligible.
use tlo.Prelude.{
  ℕ, suc, ◌+◌, ◌≡◌, true, false, none, some, List, [], ◌∷◌, ◌++◌, All, length, length-append,
}
use mathlib.Core.List.{append_assoc, append-nil}
use native.Mathlib.Nat.{zero-add, suc-add, add-zero}
use tlo.Errors.{ok, raise, tlo_error, queue_empty_error}
use tlo.Task.{Values, QueuedTask}
use tlo.Queue.Order.{is_eligible}
use tlo.Queue.Map.{dequeue_loop, peek_loop}

module _ {V : Values} (now : ℕ) where
  module _ (before rest : List (QueuedTask V)) (t : QueuedTask V) where
    waits_shift : (before ++ rest) ++ t ∷ [] ≡ before ++ (rest ++ t ∷ [])
    waits_shift = append_assoc before rest (t ∷ [])

    waits_join : (rest ++ t ∷ []) ++ before ≡ rest ++ t ∷ before
    waits_join = append_assoc rest (t ∷ []) before

  -- Past the tasks that wait, the rotated ones stand at the end.
  dequeue_waits :
      (before rest : List (QueuedTask V)) (rounds : ℕ)
      → All (λ t. is_eligible now t ≡ false) before
      → dequeue_loop now (length before + rounds) (before ++ rest)
        ≡ dequeue_loop now rounds (rest ++ before)
  unfolding dequeue_loop
  dequeue_waits [] rest rounds h = rw (zero-add, append-nil)
  dequeue_waits (t ∷ before) rest rounds h = rw (
    suc-add,
    h.0,
    waits_shift before rest t,
    dequeue_waits before (rest ++ t ∷ []) rounds h.1,
    waits_join before rest t,
  )

  peek_waits :
      (before rest : List (QueuedTask V)) (rounds : ℕ)
      → All (λ t. is_eligible now t ≡ false) before
      → peek_loop now (length before + rounds) (before ++ rest)
        ≡ peek_loop now rounds (rest ++ before)
  unfolding peek_loop
  peek_waits [] rest rounds h = rw (zero-add, append-nil)
  peek_waits (t ∷ before) rest rounds h = rw (
    suc-add,
    h.0,
    waits_shift before rest t,
    peek_waits before (rest ++ t ∷ []) rounds h.1,
    waits_join before rest t,
  )

  -- With no eligible task the loop of dequeue over a whole deque leaves the deque as it was and
  -- raises the error of an empty queue.
  pub dequeue_loop_idle :
      (d : List (QueuedTask V))
      → All (λ t. is_eligible now t ≡ false) d
      → dequeue_loop now (length d) d ≡ (d, raise (tlo_error queue_empty_error))
  unfolding dequeue_loop
  dequeue_loop_idle d h = let e = dequeue_waits d [] 0 h in rw (add-zero, append-nil) at e

  -- The loop of dequeue over a whole deque takes out its first eligible task; the tasks behind it
  -- come to the front, and those before it, which wait, stand behind them.
  pub dequeue_loop_ready :
      (before : List (QueuedTask V)) (t : QueuedTask V) (after : List (QueuedTask V))
      → All (λ u. is_eligible now u ≡ false) before
      → is_eligible now t ≡ true
      → dequeue_loop now (length (before ++ t ∷ after)) (before ++ t ∷ after)
        ≡ (after ++ before, ok t)
  unfolding dequeue_loop
  dequeue_loop_ready before t after h r =
      rw (
        length-append before (t ∷ after),
        dequeue_waits before (t ∷ after) (suc (length after)) h,
        r,
      )

  pub peek_loop_idle :
      (d : List (QueuedTask V))
      → All (λ t. is_eligible now t ≡ false) d
      → peek_loop now (length d) d ≡ (d, ok none)
  unfolding peek_loop
  peek_loop_idle d h = let e = peek_waits d [] 0 h in rw (add-zero, append-nil) at e

  pub peek_loop_ready :
      (before : List (QueuedTask V)) (t : QueuedTask V) (after : List (QueuedTask V))
      → All (λ u. is_eligible now u ≡ false) before
      → is_eligible now t ≡ true
      → peek_loop now (length (before ++ t ∷ after)) (before ++ t ∷ after)
        ≡ (t ∷ after ++ before, ok (some t))
  unfolding peek_loop
  peek_loop_ready before t after h r =
      rw (length-append before (t ∷ after), peek_waits before (t ∷ after) (suc (length after)) h, r)
