-- ===== src/Queue/Parity/Peeks.antt =====
-- bulk_peek on both queues: which tasks it gives.
use tlo.Prelude.{
  String, ℕ, zero, suc, ◌+◌, ◌≤◌, ◌≡◌, refl, sym, ◌∙◌, true, false, Option, none, some, List, [],
  ◌∷◌, ◌++◌, ◌⊎◌, inl, inr, Option-cases, dec_le, leb, ltb, filter, take, length, length-append,
  arith, Bool-cases,
}
use mathlib.Core.List.{append-nil, append_assoc}
use tlo.Task.{Values, QueuedTask}
use tlo.Queue.Order.{name_or_default, is_deferred, select}
use tlo.Queue.Simple.{SimpleInMemoryQueue}
use tlo.Queue.Simple
use tlo.Queue.Map.{MapQueue}
use tlo.Queue.Map
use tlo.Queue.Parity.{Agrees, deque_of-touch}

-- An ETA that has come: none, or one that is not after now.
abbrev pub HasCome : ℕ → Option ℕ → Type 0
HasCome now none = Unit
HasCome now (some eta) = eta ≤ now

abbrev pub has_come : (now : ℕ) (eta : Option ℕ) → Dec (HasCome now eta)
has_come now none = yes tt
has_come now (some eta) = dec_le eta now

-- As many elements as a limit allows, but one at least.
abbrev pub first_up_to : {A : Type 0} → Option ℕ → List A → List A
first_up_to none xs = xs
first_up_to (some zero) xs = take 1 xs
first_up_to (some (suc n)) xs = take (suc n) xs

module _ {V : Values} where
  abbrev pub come : ℕ → List (QueuedTask V) → List (QueuedTask V)
  come now = filter (λ t. has_come now t.eta)

  deferred_cases :
      (now : ℕ) (t : QueuedTask V) (ts : List (QueuedTask V))
      → ((is_deferred now t ≡ true) × (come now (t ∷ ts) ≡ come now ts))
        ⊎ ((is_deferred now t ≡ false) × (come now (t ∷ ts) ≡ t ∷ come now ts))
  unfolding is_deferred
  deferred_cases now t ts = elim (Option-cases t.eta) [
    | inl e ↦ inr (rw e refl, rw e refl)
    | inr (eta, e) ↦ elim (Bool-cases (ltb now eta)) [
      | inl d ↦ inl (rw (e, d) refl, rw e (ground (arith, d)))
      | inr d ↦ inr (rw (e, d) refl, rw e (ground (arith, d)))
    ]
  ]

  loops_agree :
      (now : ℕ) (limit : Option ℕ) (found ts : List (QueuedTask V))
      → Map.bulk_peek_loop now limit found ts ≡ Simple.bulk_peek_loop now limit found ts
  unfolding Map.bulk_peek_loop Simple.bulk_peek_loop
  loops_agree now limit found [] = refl
  loops_agree now none found (t ∷ ts) =
      rw (loops_agree now none found ts, loops_agree now none (found ++ t ∷ []) ts) refl
  loops_agree now (some n) found (t ∷ ts) =
      rw (loops_agree now (some n) found ts, loops_agree now (some n) (found ++ t ∷ []) ts) refl

  loop-unlimited :
      (now : ℕ) (found ts : List (QueuedTask V))
      → Simple.bulk_peek_loop now none found ts ≡ found ++ come now ts
  unfolding Simple.bulk_peek_loop
  loop-unlimited now found [] = sym (append-nil found)
  loop-unlimited now found (t ∷ ts) = elim (deferred_cases now t ts) [
    | inl (d, c) ↦ rw (d, c) (loop-unlimited now found ts)
    | inr (d, c) ↦
        rw (d, c)
          (loop-unlimited now (found ++ t ∷ []) ts ∙ append_assoc found (t ∷ []) (come now ts))
  ]

  -- With room for `room` tasks and one more.
  loop-limited :
      (now n room : ℕ) (found ts : List (QueuedTask V))
      → (length found + suc room ≡ n) ⊎ ((n ≡ 0) × (length found + suc room ≡ 1))
      → Simple.bulk_peek_loop now (some n) found ts ≡ found ++ take (suc room) (come now ts)
  unfolding Simple.bulk_peek_loop
  loop-limited now n room found [] h = sym (append-nil found)
  loop-limited now n zero found (t ∷ ts) h = elim (deferred_cases now t ts) [
    | inl (d, c) ↦ rw (d, c) (loop-limited now n zero found ts h)
    | inr (d, c) ↦
        let full : leb n (length (found ++ t ∷ [])) ≡ true =
          ground (arith, length-append found (t ∷ []), h) in
        rw (d, c, full) refl
  ]
  loop-limited now n (suc room) found (t ∷ ts) h = elim (deferred_cases now t ts) [
    | inl (d, c) ↦ rw (d, c) (loop-limited now n (suc room) found ts h)
    | inr (d, c) ↦
        let left : leb n (length (found ++ t ∷ [])) ≡ false =
          ground (arith, length-append found (t ∷ []), h) in
        let fits : length (found ++ t ∷ []) + suc room ≡ n =
          ground (arith, length-append found (t ∷ []), h) in
        rw (d, c, left)
          (loop-limited now n room (found ++ t ∷ []) ts (inl fits)
            ∙ append_assoc found (t ∷ []) (take (suc room) (come now ts)))
  ]

  loop-first_up_to :
      (now : ℕ) (limit : Option ℕ) (ts : List (QueuedTask V))
      → Simple.bulk_peek_loop now limit [] ts ≡ first_up_to limit (come now ts)
  loop-first_up_to now none ts = loop-unlimited now [] ts
  loop-first_up_to now (some zero) ts = loop-limited now 0 0 [] ts (inr (refl, refl))
  loop-first_up_to now (some (suc n)) ts = loop-limited now (suc n) n [] ts (inl (omega arith))

module _ {V : Values} (s : SimpleInMemoryQueue V) (m : MapQueue V) (a : Agrees s m) where
  -- Where the queues agree, bulk_peek gives on both the tasks of the name, or of the default queue,
  -- in their order, that have no ETA or one that is not after now: all of them with no limit, the
  -- first n with a limit of n, and the first one with a limit of 0. The queues agree behind it.
  pub bulk_peek-Agrees :
      (name : Option String) (limit : Option ℕ) (now : ℕ)
      → (Simple.bulk_peek name limit now s
          ≡ first_up_to limit (come now (select (name_or_default name s.default_queue) s.tasks)))
        × ((Map.bulk_peek name limit now m).1
            ≡ first_up_to limit (come now (select (name_or_default name s.default_queue) s.tasks)))
        × Agrees s (Map.bulk_peek name limit now m).0
  unfolding Map.bulk_peek Simple.bulk_peek
  bulk_peek-Agrees name limit now =
      let given =
        loop-first_up_to now limit (select (name_or_default name s.default_queue) s.tasks) in
      (
        given,
        rw (a.default, a.deques (name_or_default name s.default_queue))
            (loops_agree now limit [] _ ∙ given),
        record {
          default = a.default;
          sorted = a.sorted;
          deques =
              λ j. deque_of-touch j (name_or_default name m.default_queue) m.queues ∙ a.deques j;
        },
      )
