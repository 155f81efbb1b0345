-- ===== src/QueueLaws/Deques.antt =====
-- The tasks in the deques of MapQueue.
use tlo.Prelude.{
  String, ◌+◌, ◌≡◌, ◌↔◌, refl, ap, sym, ◌∙◌, Option-cases, none, some, List, [], ◌∷◌, inl, inr, All,
  All-append, All-split, ◌++◌, length, length-append, text_dec, arith, subst, if_pos,
}
use tlo.Prelude.Dict
use tlo.Prelude.Dict.{Dict}
use tlo.Task.{Values, QueuedTask}
use tlo.Queue.Map.{deque_of, touch, put}

abbrev pub Queues : Values → Type 0
Queues V = Dict (List (QueuedTask V))

module _ {V : Values} where
  unfoldable pub all_of : Queues V → List (QueuedTask V)
  all_of [] = []
  all_of ((name, d) ∷ m) = d ++ all_of m

  All-all_of :
      (R : QueuedTask V → Type 0) (n : String) (d : List (QueuedTask V)) (m : Queues V)
      → Dict.lookup n m ≡ some d
      → All R (all_of m) ↔ (All R d × All R (all_of (Dict.delete n m)))
  unfolding Dict.lookup Dict.delete all_of
  All-all_of R n d [] h = absurd (cc h)
  All-all_of R n d ((j, e) ∷ m) h = elim (text_dec j n) [
    | yes p ↦
        let q : e ≡ d = ground (arith, h) in
        let r : Dict.delete n ((j, e) ∷ m) ≡ m = ground arith in
        (
          λ a.
              let (x, y) = All-split R e (all_of m) a in
              (subst (All R) q x, subst (λ k. All R (all_of k)) (sym r) y),
          λ a.
              All-append R e (all_of m) (subst (All R) (sym q) a.0)
                (subst (λ k. All R (all_of k)) r a.1),
        )
    | no p ↦
        let q : Dict.lookup n m ≡ some d = ground (arith, h) in
        let r : Dict.delete n ((j, e) ∷ m) ≡ (j, e) ∷ Dict.delete n m = ground arith in
        let (to, from) = All-all_of R n d m q in
        (
          λ a.
              let (x, y) = All-split R e (all_of m) a in
              let (u, v) = to y in
              (u, subst (λ k. All R (all_of k)) (sym r) (All-append R e _ x v)),
          λ a.
              let (x, y) = All-split R e _ (subst (λ k. All R (all_of k)) r a.1) in
              All-append R e (all_of m) x (from (a.0, y)),
        )
  ]

  length-all_of :
      (n : String) (d : List (QueuedTask V)) (m : Queues V)
      → Dict.lookup n m ≡ some d
      → length (all_of m) ≡ length d + length (all_of (Dict.delete n m))
  unfolding Dict.lookup Dict.delete all_of
  length-all_of n d [] h = absurd (cc h)
  length-all_of n d ((j, e) ∷ m) h = ground (
    arith,
    length-all_of n d m,
    length-append e (all_of m),
    length-append e (all_of (Dict.delete n m)),
  )

  delete-insert :
      (n : String) (d : List (QueuedTask V)) (m : Queues V)
      → Dict.delete n (Dict.insert n d m) ≡ Dict.delete n m
  unfolding Dict.insert Dict.delete
  delete-insert n d [] = ground arith
  delete-insert n d ((j, e) ∷ m) = ground (arith, delete-insert n d m)

  insert_same :
      (n : String) (d : List (QueuedTask V)) (m : Queues V)
      → Dict.lookup n m ≡ some d
      → all_of (Dict.insert n d m) ≡ all_of m
  unfolding Dict.lookup Dict.insert all_of
  insert_same n d [] h = absurd (cc h)
  insert_same n d ((j, e) ∷ m) h = ground (arith, insert_same n d m)

  insert_empty :
      (n : String) (m : Queues V) → Dict.lookup n m ≡ none → all_of (Dict.insert n [] m) ≡ all_of m
  unfolding Dict.lookup Dict.insert all_of
  insert_empty n [] h = refl
  insert_empty n ((j, e) ∷ m) h = ground (arith, insert_empty n m)

  all_of-touch : (n : String) (m : Queues V) → all_of (touch n m) ≡ all_of m
  unfolding touch
  all_of-touch n m = elim (Option-cases (Dict.lookup n m)) [
    | inl e ↦ rw (touch, e) (insert_empty n m e)
    | inr (d, e) ↦ rw (touch, e) refl
  ]

  lookup-touch : (n : String) (m : Queues V) → Dict.lookup n (touch n m) ≡ some (deque_of n m)
  unfolding touch deque_of
  lookup-touch n m = ground (arith, Dict.lookup-insert n n [] m)

  -- A deque that is put in place of a name's own.
  module _ (n : String) (d : List (QueuedTask V)) (m : Queues V) where
    lookup-put : Dict.lookup n (put n d m) ≡ some d
    unfolding put
    lookup-put = Dict.lookup-insert n n d (touch n m) ∙ if_pos (text_dec n n) refl (some d) _

    delete-put : Dict.delete n (put n d m) ≡ Dict.delete n (touch n m)
    unfolding put
    delete-put = delete-insert n d (touch n m)

    pub all_of-put_same : d ≡ deque_of n m → all_of (put n d m) ≡ all_of m
    unfolding put
    all_of-put_same e =
        insert_same n d (touch n m) (lookup-touch n m ∙ ap some (sym e)) ∙ all_of-touch n m

    pub length-put :
        length (all_of m) + length d ≡ length (all_of (put n d m)) + length (deque_of n m)
    length-put =
        let a = length-all_of n (deque_of n m) (touch n m) (lookup-touch n m) in
        let b = length-all_of n d (put n d m) lookup-put in
        omega (arith, a, b, ap (λ k. length (all_of k)) delete-put, ap length (all_of-touch n m))

    pub All-put :
        (R : QueuedTask V → Type 0)
        → (rest : Type 0) × ((All R (all_of m) ↔ (All R (deque_of n m) × rest))
            × (All R (all_of (put n d m)) ↔ (All R d × rest)))
    All-put R = (
      All R (all_of (Dict.delete n (touch n m))),
      (
        subst (λ k. All R k ↔ (All R (deque_of n m) × All R (all_of (Dict.delete n (touch n m)))))
            (all_of-touch n m) (All-all_of R n (deque_of n m) (touch n m) (lookup-touch n m)),
        subst (λ k. All R (all_of (put n d m)) ↔ (All R d × All R (all_of k))) delete-put
            (All-all_of R n d (put n d m) lookup-put),
      ),
    )
