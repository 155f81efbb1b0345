-- ===== src/Queue/Unique.antt =====
-- Ids stay unique in the list, and names in the dict, through all operations.
use tlo.Prelude.{
  String, ℕ, ◌≡◌, ◌≢◌, Bool, Option, none, List, [], ◌∷◌, ◌++◌, All, split_first, arith, All-append,
  OnSome, sym,
}
use tlo.Prelude.Sort.{sort_by, insert_by, All-insert_by, All-sort_by}
use tlo.Prelude.Dict
use tlo.Prelude.Dict.{Dict}
use tlo.Errors.{Result, ok, raise}
use tlo.Task.{Values, QueuedTask}
use tlo.Queue.Order.{queue_sort_key}
use tlo.Queue.Simple.{sort_tasks, pop_named, delete_by_id, change_by_id}
use tlo.Queue.Map.{touch, put, update_loop}
use tlo.Queue.ById.{IsAbsent, IsUnique}

module _ {V : Values} where
  insert_by-IsUnique :
      (t : QueuedTask V) (ts : List (QueuedTask V))
      → IsAbsent t.id ts
      → IsUnique ts
      → IsUnique (insert_by queue_sort_key t ts)
  unfolding insert_by
  insert_by-IsUnique t [] a u = (tt, tt)
  insert_by-IsUnique t (x ∷ ts) a u = ground (
    arith,
    insert_by-IsUnique t ts a.1 u.1,
    All-insert_by queue_sort_key (λ y. y.id ≢ x.id) t ts (λ e. a.0 (sym e)) u.0,
  )

  pub sort_by-IsUnique : (ts : List (QueuedTask V)) → IsUnique ts → IsUnique (sort_tasks ts)
  unfolding sort_by
  sort_by-IsUnique [] u = tt
  sort_by-IsUnique (t ∷ ts) u =
      insert_by-IsUnique t (sort_tasks ts) (All-sort_by queue_sort_key (λ y. y.id ≢ t.id) ts u.0)
        (sort_by-IsUnique ts u.1)

  pub snoc-IsUnique :
      (ts : List (QueuedTask V)) (t : QueuedTask V)
      → IsUnique ts
      → IsAbsent t.id ts
      → IsUnique (ts ++ t ∷ [])
  snoc-IsUnique [] t u a = (tt, tt)
  snoc-IsUnique (x ∷ ts) t u a = (
    All-append (λ y. y.id ≢ x.id) ts (t ∷ []) u.0 (λ e. a.0 (sym e), tt),
    snoc-IsUnique ts t u.1 a.1,
  )

  split_first-All :
      (P : QueuedTask V → Type 0) (p : QueuedTask V → Bool) (ts : List (QueuedTask V))
      → All P ts
      → OnSome (λ r. All P r.1) (split_first p ts)
  unfolding split_first
  split_first-All P p [] a = tt
  split_first-All P p (x ∷ ts) a = ground (arith, split_first-All P p ts a.1)

  pub split_first-IsUnique :
      (p : QueuedTask V → Bool) (ts : List (QueuedTask V))
      → IsUnique ts
      → OnSome (λ r. IsUnique r.1) (split_first p ts)
  unfolding split_first
  split_first-IsUnique p [] u = tt
  split_first-IsUnique p (x ∷ ts) u =
      ground (arith, split_first-IsUnique p ts u.1, split_first-All (λ y. y.id ≢ x.id) p ts u.0)

  pop_named-All :
      (P : QueuedTask V → Type 0) (n : String) (ts : List (QueuedTask V))
      → All P ts
      → OnSome (λ r. All P r.1) (pop_named n ts)
  unfolding pop_named
  pop_named-All P n [] a = tt
  pop_named-All P n (x ∷ ts) a = ground (arith, pop_named-All P n ts a.1)

  pub pop_named-IsUnique :
      (n : String) (ts : List (QueuedTask V))
      → IsUnique ts
      → OnSome (λ r. IsUnique r.1) (pop_named n ts)
  unfolding pop_named
  pop_named-IsUnique n [] u = tt
  pop_named-IsUnique n (x ∷ ts) u =
      ground (arith, pop_named-IsUnique n ts u.1, pop_named-All (λ y. y.id ≢ x.id) n ts u.0)

  delete_by_id-All :
      (P : QueuedTask V → Type 0) (id : String) (ts : List (QueuedTask V))
      → All P ts
      → OnSome (All P) (delete_by_id id ts)
  unfolding delete_by_id
  delete_by_id-All P id [] a = tt
  delete_by_id-All P id (x ∷ ts) a = ground (arith, delete_by_id-All P id ts a.1)

  pub delete_by_id-IsUnique :
      (id : String) (ts : List (QueuedTask V)) → IsUnique ts → OnSome IsUnique (delete_by_id id ts)
  unfolding delete_by_id
  delete_by_id-IsUnique id [] u = tt
  delete_by_id-IsUnique id (x ∷ ts) u =
      ground (arith, delete_by_id-IsUnique id ts u.1, delete_by_id-All (λ y. y.id ≢ x.id) id ts u.0)

  module _ (eta : Option ℕ) where
    abbrev set : QueuedTask V → QueuedTask V
    set t = record t { eta = eta }

    change_by_id-IsAbsent :
        (k id : String) (ts : List (QueuedTask V))
        → IsAbsent k ts
        → OnSome (IsAbsent k) (change_by_id set id ts)
    unfolding change_by_id
    change_by_id-IsAbsent k id [] a = tt
    change_by_id-IsAbsent k id (x ∷ ts) a = ground (arith, change_by_id-IsAbsent k id ts a.1)

    pub change_by_id-IsUnique :
        (id : String) (ts : List (QueuedTask V))
        → IsUnique ts
        → OnSome IsUnique (change_by_id set id ts)
    unfolding change_by_id
    change_by_id-IsUnique id [] u = tt
    change_by_id-IsUnique id (x ∷ ts) u =
        ground (arith, change_by_id-IsUnique id ts u.1, change_by_id-IsAbsent x.id id ts u.0)

  pub put-IsDistinct :
      (n : String) (d : List (QueuedTask V)) (m : Dict (List (QueuedTask V)))
      → Dict.IsDistinct m
      → Dict.IsDistinct (put n d m)
  unfolding put touch
  put-IsDistinct n d m h =
      ground (arith, Dict.insert-IsDistinct n [] m h, Dict.insert-IsDistinct n d (touch n m))

  pub touch-IsDistinct :
      (n : String) (m : Dict (List (QueuedTask V)))
      → Dict.IsDistinct m
      → Dict.IsDistinct (touch n m)
  unfolding touch
  touch-IsDistinct n m h = ground (arith, Dict.insert-IsDistinct n [] m h)

module _ {V : Values} (f : QueuedTask V → List (QueuedTask V) → Result (List (QueuedTask V)))
    (id : String) where
  abbrev pub OnOk :
      (Dict (List (QueuedTask V)) → Type 0) → Result (Dict (List (QueuedTask V))) → Type 0
  OnOk P (ok m) = P m
  OnOk P (raise e) = Unit

  update_loop-lookup :
      (j : String) (m : Dict (List (QueuedTask V)))
      → Dict.lookup j m ≡ none
      → OnOk (λ m'. Dict.lookup j m' ≡ none) (update_loop f id m)
  unfolding update_loop Dict.lookup
  update_loop-lookup j [] h = tt
  update_loop-lookup j ((n, d) ∷ m) h = ground (arith, update_loop-lookup j m)

  pub update_loop-IsDistinct :
      (m : Dict (List (QueuedTask V)))
      → Dict.IsDistinct m
      → OnOk Dict.IsDistinct (update_loop f id m)
  unfolding update_loop
  update_loop-IsDistinct [] h = tt
  update_loop-IsDistinct ((n, d) ∷ m) h =
      ground (arith, update_loop-IsDistinct m h.1, update_loop-lookup n m h.0)
