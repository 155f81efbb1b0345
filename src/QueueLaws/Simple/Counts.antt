-- ===== src/QueueLaws/Simple/Counts.antt =====
-- The tasks of a name in the list of SimpleInMemoryQueue, and how they are counted.
use tlo.Prelude.{
  String, ℕ, suc, ◌+◌, ◌≡◌, ◌≢◌, ◌↔◌, refl, none, some, List, [], ◌∷◌, ◌⊎◌, inl, inr, All, All-imp,
  length, text_dec, ite, arith, subst,
}
use tlo.Prelude.Dict
use tlo.Prelude.Dict.{Dict}
use tlo.Task.{Values, QueuedTask}
use tlo.Queue.Order.{select}
use tlo.Queue.Simple.{pop_named, count_names}

add_one-All {κ} :
    (K : String → Type κ) (k : String) (m : Dict ℕ)
    → K k
    → All (λ e. K e.0) m
    → All (λ e. K e.0) (Dict.add_one k m)
unfolding Dict.add_one
add_one-All K k [] x h = (x, tt)
add_one-All K k ((j, n) ∷ m) x h =
    elim (text_dec j k)
      as (λ c. All (λ e. K e.0) (ite c ((j, n + 1) ∷ m) ((j, n) ∷ Dict.add_one k m))) [
        | yes p ↦ h
        | no p ↦ (h.0, add_one-All K k m x h.1)
      ]

add_one_counts : (k : String) (m : Dict ℕ) → ¬ All (λ e. e.1 ≡ 0) (Dict.add_one k m)
unfolding Dict.add_one
add_one_counts k [] = λ h. omega (arith, h.0)
add_one_counts k ((j, n) ∷ m) =
    elim (text_dec j k)
      as (λ c. ¬ All (λ e. e.1 ≡ 0) (ite c ((j, n + 1) ∷ m) ((j, n) ∷ Dict.add_one k m))) [
        | yes p ↦ λ h. omega (arith, h.0)
        | no p ↦ λ h. add_one_counts k m h.1
      ]

add_one-back :
    (K : String → Type 0) (k : String) (m : Dict ℕ)
    → All (λ e. (e.1 ≡ 0) ⊎ K e.0) (Dict.add_one k m)
    → K k × All (λ e. (e.1 ≡ 0) ⊎ K e.0) m
unfolding Dict.add_one
add_one-back K k [] h = (elim h.0 [ inl z ↦ absurd (omega arith) | inr x ↦ x ], tt)
add_one-back K k ((j, n) ∷ m) h =
    elim (text_dec j k)
        as (λ c.
          All (λ e. (e.1 ≡ 0) ⊎ K e.0) (ite c ((j, n + 1) ∷ m) ((j, n) ∷ Dict.add_one k m))
          → K k × (((n ≡ 0) ⊎ K j) × All (λ e. (e.1 ≡ 0) ⊎ K e.0) m)) [
            | yes p ↦ λ a.
                let x : K j = elim a.0 [ inl z ↦ absurd (omega (arith, z)) | inr x ↦ x ] in
                (subst K p x, (inr x, a.1))
            | no p ↦ λ a. let (x, y) = add_one-back K k m a.1 in (x, (a.0, y))
          ]
      h

module _ {V : Values} (R : QueuedTask V → Type 0) (n : String) (t : QueuedTask V)
    (ts : List (QueuedTask V)) where
  selects_first : t.queue_name ≡ n → All R (select n (t ∷ ts)) → R t
  selects_first p h = ground (arith, h, p)

  selects_rest : All R (select n (t ∷ ts)) → All R (select n ts)
  selects_rest h = ground (arith, h)

module _ {V : Values} where
  -- The first task of a name, and the others.
  pub data Pops (n : String) (ts : List (QueuedTask V)) : Type 1 where
    nothing : pop_named n ts ≡ none → All (λ t. t.queue_name ≢ n) ts → Pops n ts
    first :
        (t : QueuedTask V) (rest : List (QueuedTask V))
        → pop_named n ts ≡ some (t, rest)
        → length ts ≡ suc (length rest)
        → ((R : QueuedTask V → Type 0) → All R ts ↔ (R t × All R rest))
        → Pops n ts

  pub pops : (n : String) (ts : List (QueuedTask V)) → Pops n ts
  unfolding pop_named
  pops n [] = nothing refl tt
  pops n (t ∷ ts) = elim (text_dec t.queue_name n) [
    | yes p ↦ first t ts (ground arith) refl (λ R. (λ a. a, λ a. a))
    | no p ↦ elim (pops n ts) [
      | nothing e h ↦ nothing (ground arith) (p, h)
      | first u rest e l same ↦ first u (t ∷ rest) (ground arith) (omega (arith, l)) (λ R. (
        λ a. let (x, y) = (same R).0 a.1 in (x, (a.0, y)),
        λ a. (a.1.0, (same R).1 (a.0, a.1.1)),
      ))
    ]
  ]

  -- Each task's own name is there to be popped.
  pub present :
      (ts : List (QueuedTask V)) → All (λ t. ¬ All (λ u. u.queue_name ≢ t.queue_name) ts) ts
  present [] = tt
  present (t ∷ ts) = (λ h. h.0 refl, All-imp _ _ (λ u n h. n h.1) ts (present ts))

  pub count_names-All {κ} :
      (K : String → Type κ) (m : Dict ℕ) (ts : List (QueuedTask V))
      → All (λ e. K e.0) m
      → All (λ t. K t.queue_name) ts
      → All (λ e. K e.0) (count_names m ts)
  unfolding count_names
  count_names-All K m [] h a = h
  count_names-All K m (t ∷ ts) h a =
      count_names-All K (Dict.add_one t.queue_name m) ts (add_one-All K t.queue_name m a.0 h) a.1

  count_names_counts :
      (m : Dict ℕ) (ts : List (QueuedTask V))
      → ¬ All (λ e. e.1 ≡ 0) m
      → ¬ All (λ e. e.1 ≡ 0) (count_names m ts)
  unfolding count_names
  count_names_counts m [] h = h
  count_names_counts m (t ∷ ts) h =
      count_names_counts (Dict.add_one t.queue_name m) ts (add_one_counts t.queue_name m)

  -- Each task's queue is counted.
  count_names-back :
      (K : String → Type 0) (m : Dict ℕ) (ts : List (QueuedTask V))
      → All (λ e. (e.1 ≡ 0) ⊎ K e.0) (count_names m ts)
      → All (λ e. (e.1 ≡ 0) ⊎ K e.0) m
  unfolding count_names
  count_names-back K m [] h = h
  count_names-back K m (t ∷ ts) h =
      (add_one-back K t.queue_name m (count_names-back K (Dict.add_one t.queue_name m) ts h)).1

  pub count_names-names :
      (K : String → Type 0) (m : Dict ℕ) (ts : List (QueuedTask V))
      → All (λ e. (e.1 ≡ 0) ⊎ K e.0) (count_names m ts)
      → All (λ t. K t.queue_name) ts
  unfolding count_names
  count_names-names K m [] h = tt
  count_names-names K m (t ∷ ts) h = (
    (add_one-back K t.queue_name m (count_names-back K (Dict.add_one t.queue_name m) ts h)).0,
    count_names-names K (Dict.add_one t.queue_name m) ts h,
  )

  pub selected :
      (R : QueuedTask V → Type 0) (ts : List (QueuedTask V))
      → All (λ t. All R (select t.queue_name ts)) ts
      → All R ts
  selected R [] h = tt
  selected R (t ∷ ts) h = (
    selects_first R t.queue_name t ts refl h.0,
    selected R ts (All-imp _ _ (λ u. selects_rest R u.queue_name t ts) ts h.1),
  )

  pub all_counted_lem :
      (ts : List (QueuedTask V)) → All (λ e. e.1 ≡ 0) (count_names [] ts) → ts ≡ []
  unfolding count_names
  all_counted_lem [] h = refl
  all_counted_lem (t ∷ ts) h =
      absurd
        (count_names_counts (Dict.add_one t.queue_name []) ts (add_one_counts t.queue_name []) h)
