-- ===== src/Queue/Started.antt =====
-- Sorted lists at a clock that has passed the times of enqueueing: what is eligible stands in front.
use tlo.Prelude.{
  String, ℕ, ◌≤◌, ◌<◌, ◌≡◌, ◌≢◌, refl, true, false, Option, none, some, List, [], ◌∷◌, text_dec,
  split_first, All, arith, Bool-cases, inl, inr,
}
use tlo.Prelude.Sort.{IsAbove, IsSorted}
use tlo.Task.{Values, QueuedTask}
use tlo.Queue.Order.{queue_sort_key, is_eligible, select}
use tlo.Queue.Simple.Next.{is_ready}

module _ {V : Values} (now : ℕ) where
  -- The task was put into the queue no later than the clock now reads.
  abbrev pub IsStarted : QueuedTask V → Type 0
  IsStarted t = t.enqueued_at ≤ now

  deferred_key : (t : QueuedTask V) → is_eligible now t ≡ false → now < queue_sort_key t
  unfolding is_eligible queue_sort_key
  deferred_key t h = ground arith

  late_deferred :
      (t : QueuedTask V) → IsStarted t → now < queue_sort_key t → is_eligible now t ≡ false
  unfolding is_eligible queue_sort_key
  late_deferred t s h = ground arith

  -- Behind a deferred task all are deferred.
  pub behind_deferred :
      (k : ℕ) (ts : List (QueuedTask V))
      → now < k
      → IsAbove queue_sort_key k ts
      → All IsStarted ts
      → All (λ t. is_eligible now t ≡ false) ts
  behind_deferred k [] h a s = tt
  behind_deferred k (t ∷ ts) h a s =
      (late_deferred t s.0 (omega arith), behind_deferred k ts h a.1 s.1)

  -- How taking out the first ready task of a queue shows in the parts for each queue.
  pub data Heads (n : String) (ts : List (QueuedTask V))
      (o : Option (QueuedTask V × List (QueuedTask V))) : Type 0 where
    idle : All (λ t. is_eligible now t ≡ false) (select n ts) → o ≡ none → Heads n ts o
    head :
        (t : QueuedTask V) (rest : List (QueuedTask V))
        → o ≡ some (t, rest)
        → is_eligible now t ≡ true
        → select n ts ≡ t ∷ select n rest
        → ((j : String) → n ≢ j → select j rest ≡ select j ts)
        → ((k : ℕ) → IsAbove queue_sort_key k ts → IsAbove queue_sort_key k rest)
        → IsSorted queue_sort_key rest
        → Heads n ts o

  unready :
      (n : String) (ts : List (QueuedTask V))
      → All (λ t. is_eligible now t ≡ false) ts
      → split_first (is_ready n now) ts ≡ none
  unfolding split_first
  unready n [] h = refl
  unready n (t ∷ ts) h = ground (arith, unready n ts h.1)

  deferred_select :
      (n : String) (ts : List (QueuedTask V))
      → All (λ t. is_eligible now t ≡ false) ts
      → All (λ t. is_eligible now t ≡ false) (select n ts)
  deferred_select n [] h = tt
  deferred_select n (t ∷ ts) h = ground (arith, deferred_select n ts h.1)

  pub split_first-Heads :
      (n : String) (ts : List (QueuedTask V))
      → IsSorted queue_sort_key ts
      → All IsStarted ts
      → Heads n ts (split_first (is_ready n now) ts)
  unfolding split_first
  split_first-Heads n [] s a = idle tt refl
  split_first-Heads n (t ∷ ts) s a = elim (text_dec t.queue_name n) [
    | yes p ↦ elim (Bool-cases (is_eligible now t)) [
      | inl e ↦ head t ts (ground arith) e (ground arith) (λ j h. ground arith) (λ k b. b.1) s.1
      | inr e ↦
          let late = behind_deferred (queue_sort_key t) ts (deferred_key t e) s.0 a.1 in
          idle (deferred_select n (t ∷ ts) (e, late)) (unready n (t ∷ ts) (e, late))
    ]
    | no p ↦ elim (split_first-Heads n ts s.1 a.1) [
      | idle h e ↦ idle (ground arith) (ground arith)
      | head u rest e el sel others above sorted ↦
          head u (t ∷ rest) (ground arith) el (ground arith) (λ j h. ground (arith, others j h))
            (λ k b. (b.0, above k b.1)) (above (queue_sort_key t) s.0, sorted)
    ]
  ]
