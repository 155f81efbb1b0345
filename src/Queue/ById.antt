-- ===== src/Queue/ById.antt =====
-- The operations that look a task up by its id, in lists where no id stands twice.
use tlo.Prelude.{
  String, ℕ, ◌≡◌, ◌≢◌, refl, sym, Option, none, some, List, [], ◌∷◌, text_dec, ite, All, arith,
}
use tlo.Prelude.Sort.{IsAbove, IsSorted}
use tlo.Prelude.Dict
use tlo.Prelude.Dict.{Dict}
use tlo.Errors.{Result, ok, raise, tlo_error, queue_empty_error}
use tlo.Task.{Values, QueuedTask, task_eq_refl, task_eq-eq}
use tlo.Queue.Order.{queue_sort_key, select, list_remove}
use tlo.Queue.Simple.{delete_by_id, change_by_id}
use tlo.Queue.Map.{deque_of, find_by_id, set_eta, update_loop}

module _ {V : Values} where
  abbrev pub IsAbsent : String → List (QueuedTask V) → Type 0
  IsAbsent id = All (λ t. t.id ≢ id)

  -- No id stands twice.
  abbrev pub IsUnique : List (QueuedTask V) → Type 0
  IsUnique [] = Unit
  IsUnique (t ∷ ts) = IsAbsent t.id ts × IsUnique ts

  pub find_absent :
      (id : String) (ts : List (QueuedTask V)) → IsAbsent id ts → find_by_id id ts ≡ none
  unfolding find_by_id
  find_absent id [] h = refl
  find_absent id (t ∷ ts) h = ground (arith, find_absent id ts h.1)

  find_by_id-id :
      (id : String) (ts : List (QueuedTask V)) (t : QueuedTask V)
      → find_by_id id ts ≡ some t
      → t.id ≡ id
  unfolding find_by_id
  find_by_id-id id [] t e = cc
  find_by_id-id id (u ∷ ts) t e = ground (arith, find_by_id-id id ts t)

  pub select-IsAbsent :
      (j id : String) (ts : List (QueuedTask V)) → IsAbsent id ts → IsAbsent id (select j ts)
  select-IsAbsent j id [] h = tt
  select-IsAbsent j id (t ∷ ts) h = ground (arith, select-IsAbsent j id ts h.1)

  -- Deleting by the id, as the parts for each queue show it.
  pub data Cuts (id : String) (ts : List (QueuedTask V)) (o : Option (List (QueuedTask V)))
      : Type 0 where
    absent : IsAbsent id ts → o ≡ none → Cuts id ts o
    cut :
        (t : QueuedTask V) (rest : List (QueuedTask V))
        → o ≡ some rest
        → find_by_id id (select t.queue_name ts) ≡ some t
        → list_remove t (select t.queue_name ts) ≡ ok (select t.queue_name rest)
        → ((j : String)
            → t.queue_name ≢ j
            → (select j rest ≡ select j ts) × (find_by_id id (select j ts) ≡ none))
        → ((k : ℕ) → IsAbove queue_sort_key k ts → IsAbove queue_sort_key k rest)
        → IsSorted queue_sort_key rest
        → Cuts id ts o

  pub delete_by_id-Cuts :
      (id : String) (ts : List (QueuedTask V))
      → IsSorted queue_sort_key ts
      → IsUnique ts
      → Cuts id ts (delete_by_id id ts)
  unfolding delete_by_id find_by_id list_remove
  delete_by_id-Cuts id [] s u = absent tt refl
  delete_by_id-Cuts id (t ∷ ts) s u = elim (text_dec t.id id) [
    | yes p ↦
        cut t ts (ground arith) (ground arith) (ground (arith, task_eq_refl t))
          (λ j h. (
            ground arith,
            ground (arith, find_absent id (select j ts) (select-IsAbsent j id ts (rw p at u.0))),
          ))
          (λ k b. b.1) s.1
    | no p ↦ elim (delete_by_id-Cuts id ts s.1 u.1) [
      | absent h e ↦ absent (p, h) (ground arith)
      | cut x rest e f r others above sorted ↦
          cut x (t ∷ rest) (ground arith) (ground arith)
            (ground (arith, task_eq-eq t x, find_by_id-id id (select x.queue_name ts) x f))
            (λ j h. (ground (arith, others j h), ground (arith, others j h)))
            (λ k b. (b.0, above k b.1)) (above (queue_sort_key t) s.0, sorted)
    ]
  ]

  -- Setting the ETA of the task with the id, as the parts for each queue show it.
  pub data Changes (id : String) (eta : Option ℕ) (ts : List (QueuedTask V))
      (o : Option (List (QueuedTask V))) : Type 0 where
    unchanged : IsAbsent id ts → o ≡ none → Changes id eta ts o
    changed :
        (t : QueuedTask V) (rest : List (QueuedTask V))
        → o ≡ some rest
        → find_by_id id (select t.queue_name ts) ≡ some t
        → set_eta id eta (select t.queue_name ts) ≡ select t.queue_name rest
        → ((j : String)
            → t.queue_name ≢ j
            → (select j rest ≡ select j ts) × (find_by_id id (select j ts) ≡ none))
        → Changes id eta ts o

  pub change_by_id-Changes :
      (id : String) (eta : Option ℕ) (ts : List (QueuedTask V))
      → IsUnique ts
      → Changes id eta ts (change_by_id (λ t. record t { eta = eta }) id ts)
  unfolding change_by_id find_by_id set_eta
  change_by_id-Changes id eta [] u = unchanged tt refl
  change_by_id-Changes id eta (t ∷ ts) u = elim (text_dec t.id id) [
    | yes p ↦
        changed t (record t { eta = eta } ∷ ts) (ground arith) (ground arith) (ground arith) (λ j h.
          (
            ground arith,
            ground (arith, find_absent id (select j ts) (select-IsAbsent j id ts (rw p at u.0))),
          ))
    | no p ↦ elim (change_by_id-Changes id eta ts u.1) [
      | unchanged h e ↦ unchanged (p, h) (ground arith)
      | changed x rest e f r others ↦
          changed x (t ∷ rest) (ground arith) (ground arith) (ground arith)
            (λ j h. (ground (arith, others j h), ground (arith, others j h)))
    ]
  ]

module _ {V : Values} (f : QueuedTask V → List (QueuedTask V) → Result (List (QueuedTask V)))
    (id : String) where
  tail_none :
      (n : String) (e : List (QueuedTask V)) (m : Dict (List (QueuedTask V))) (j : String)
      → Dict.lookup n m ≡ none
      → find_by_id id (deque_of j ((n, e) ∷ m)) ≡ none
      → find_by_id id (deque_of j m) ≡ none
  unfolding deque_of Dict.lookup find_by_id
  tail_none n e m j d h = elim (text_dec n j) [ yes p ↦ ground arith | no p ↦ ground arith ]

  -- With no deque that has the id, the loop runs through.
  pub update_loop_absent :
      (m : Dict (List (QueuedTask V)))
      → Dict.IsDistinct m
      → ((j : String) → find_by_id id (deque_of j m) ≡ none)
      → update_loop f id m ≡ raise (tlo_error queue_empty_error)
  unfolding update_loop deque_of Dict.lookup
  update_loop_absent [] d h = refl
  update_loop_absent ((n, e) ∷ m) d h =
      ground (arith, h n, update_loop_absent m d.1 (λ j. tail_none n e m j d.0 (h j)))

  pub update_loop_found :
      (m : Dict (List (QueuedTask V))) (source : String) (t : QueuedTask V)
      (d' : List (QueuedTask V))
      → Dict.IsDistinct m
      → find_by_id id (deque_of source m) ≡ some t
      → f t (deque_of source m) ≡ ok d'
      → ((j : String) → source ≢ j → find_by_id id (deque_of j m) ≡ none)
      → (m' : Dict (List (QueuedTask V))) × (update_loop f id m ≡ ok m')
        × ((j : String) → deque_of j m' ≡ ite (text_dec source j) d' (deque_of j m))
  unfolding update_loop deque_of Dict.lookup find_by_id
  update_loop_found [] source t d' d e g h = absurd (ground arith)
  update_loop_found ((n, e) ∷ m) source t d' d e' g h = elim (text_dec n source) [
    | yes p ↦ ((n, d') ∷ m, ground arith, λ j. ground arith)
    | no p ↦
        let (m', u, v) =
          update_loop_found m source t d' d.1 (ground arith) (ground arith)
            (λ j q. tail_none n e m j d.0 (h j q)) in
        ((n, e) ∷ m', ground (arith, h n (λ q. p (sym q))), λ j. ground (arith, v j))
  ]
