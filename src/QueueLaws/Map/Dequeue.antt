-- ===== src/QueueLaws/Map/Dequeue.antt =====
-- What the two dequeuing calls of MapQueue do to the tasks in its deques.
use tlo.Prelude.{
  String, ℕ, ◌≡◌, ◌≢◌, refl, ap, sym, ◌∙◌, some, List, [], ◌∷◌, ◌⊎◌, inl, inr, All, All-append,
  ◌++◌, length, text_dec, ite, arith, subst, if_neg, Option-cases, All-split, All-insert,
  length-append, true, false, split_first-Split, missing, found,
}
use tlo.Prelude.Dict
use tlo.Prelude.Dict.{Dict}
use tlo.Errors.{Result, ok, raise, tlo_error, queue_empty_error}
use tlo.Task.{Values, QueuedTask}
use tlo.Queue.Order.{name_or_default, is_eligible}
use tlo.Queue.Map.{
  MapQueue, dequeue, dequeue_loop, dequeue_any_unsafe, popleft, deque_of, put, touch,
}
use tlo.Queue.Parity.{deque_of-put}
use tlo.Queue.Map.Rotation.{dequeue_loop_idle, dequeue_loop_ready}
use tlo.System.Queues.{map_queue}
use tlo.QueueLaws.{Gives, Declines, Takes, Refuses}
use tlo.QueueLaws.Deques.{Queues, all_of, all_of-put_same, length-put, All-put}

List-cases {ℓ} : {A : Type ℓ} (xs : List A) → (xs ≡ []) ⊎ ((x : A) × (ys : List A) × (xs ≡ x ∷ ys))
List-cases [] = inl refl
List-cases (x ∷ xs) = inr (x, xs, refl)

has_one {ℓ} : {A : Type ℓ} (xs : List A) (x : A) (ys : List A) → ¬ (xs ++ x ∷ ys ≡ [])
has_one [] x ys = λ e. absurd (cc e)
has_one (y ∷ xs) x ys = λ e. absurd (cc e)

module _ {V : Values} where
  abbrev pub items : MapQueue V → List (QueuedTask V)
  items q = all_of q.queues

  abbrev pub holds : String → MapQueue V → List (QueuedTask V)
  holds name q = deque_of name q.queues

  -- An entry that holds no task, or has a name.
  abbrev pub IsNamed : String × List (QueuedTask V) → Type 0
  IsNamed e = (e.1 ≡ []) ⊎ (e.0 ≢ "")

  pub record IsValid (q : MapQueue V) : Type 0 where
    pub distinct : Dict.IsDistinct q.queues
    pub named : All IsNamed q.queues

  insert-IsNamed :
      (n : String) (d : List (QueuedTask V)) (m : Queues V)
      → IsNamed (n, d)
      → All IsNamed m
      → All IsNamed (Dict.insert n d m)
  unfolding Dict.insert
  insert-IsNamed n d [] h a = (h, tt)
  insert-IsNamed n d ((j, e) ∷ m) h a =
      elim (text_dec j n) as (λ c. All IsNamed (ite c ((j, d) ∷ m) ((j, e) ∷ Dict.insert n d m))) [
        | yes p ↦ (subst (λ k. IsNamed (k, d)) (sym p) h, a.1)
        | no p ↦ (a.0, insert-IsNamed n d m h a.1)
      ]

  pub put-IsNamed :
      (n : String) (d : List (QueuedTask V)) (m : Queues V)
      → IsNamed (n, d)
      → All IsNamed m
      → All IsNamed (put n d m)
  unfolding put touch
  put-IsNamed n d m h a = elim (Option-cases (Dict.lookup n m)) [
    | inl e ↦ insert-IsNamed n d _ h (rw (touch, e) (insert-IsNamed n [] m (inl refl) a))
    | inr (x, e) ↦ insert-IsNamed n d _ h (rw (touch, e) a)
  ]

  pub put-IsDistinct :
      (n : String) (d : List (QueuedTask V)) (m : Queues V)
      → Dict.IsDistinct m
      → Dict.IsDistinct (put n d m)
  unfolding put touch
  put-IsDistinct n d m a = elim (Option-cases (Dict.lookup n m)) [
    | inl e ↦ Dict.insert-IsDistinct n d _ (rw (touch, e) (Dict.insert-IsDistinct n [] m a))
    | inr (x, e) ↦ Dict.insert-IsDistinct n d _ (rw (touch, e) a)
  ]

  -- A name whose deque holds a task is not empty.
  deque_of-IsNamed : (n : String) (m : Queues V) → All IsNamed m → IsNamed (n, deque_of n m)
  unfolding deque_of Dict.lookup
  deque_of-IsNamed n [] h = inl refl
  deque_of-IsNamed n ((j, d) ∷ m) h = ground (arith, deque_of-IsNamed n m h.1, h.0)

  module _ (name : String) (q : MapQueue V) where
    abbrev real_name : String
    real_name = name_or_default (some name) q.default_queue

    abbrev with_deque : List (QueuedTask V) → MapQueue V
    with_deque d = record q { queues = put real_name d q.queues }

    pub own_name : name ≢ "" → real_name ≡ name
    unfolding name_or_default
    own_name ne = if_neg (text_dec name "") ne q.default_queue name

    -- With its own deque in place again each name has the tasks that it had.
    alike :
        (d : List (QueuedTask V))
        → d ≡ deque_of real_name q.queues
        → (n : String) → holds n (with_deque d) ≡ holds n q
    alike d e n = ground (arith, deque_of-put n real_name d q.queues)

    took :
        (t : QueuedTask V) (d : List (QueuedTask V))
        → deque_of real_name q.queues ≡ t ∷ d
        → dequeue_any_unsafe (some name) q ≡ (with_deque d, ok t)
    unfolding dequeue_any_unsafe popleft
    took t d e = rw (dequeue_any_unsafe, e) refl

    refused :
        deque_of real_name q.queues ≡ []
        → dequeue_any_unsafe (some name) q ≡ (with_deque [], raise (tlo_error queue_empty_error))
    unfolding dequeue_any_unsafe popleft
    refused e = rw (dequeue_any_unsafe, e) refl

    pub takes_lem :
        (t : QueuedTask V) (d : List (QueuedTask V))
        → deque_of real_name q.queues ≡ t ∷ d
        → Takes (map_queue V) items name q
    takes_lem t d e = record {
      task = t;
      rest = with_deque d;
      taken = took t d e;
      fewer = omega (arith, length-put real_name d q.queues, ap length e);
      same = λ R.
          let (rest, (p, r)) = All-put real_name d q.queues R in
          (
            λ a.
                let (x, y) = p.0 a in
                let z : All R (t ∷ d) = subst (All R) e x in (z.0, r.1 (z.1, y)),
            λ a. let (x, y) = r.0 a.1 in p.1 (subst (All R) (sym e) (a.0, x), y),
          );
    }

    refuses_lem : deque_of real_name q.queues ≡ [] → Refuses (map_queue V) items name holds q
    refuses_lem e = record {
      rest = with_deque [];
      empty = refused e;
      same = all_of-put_same real_name [] q.queues (sym e);
      alike = alike [] (sym e);
    }

    pub cases_lem : Takes (map_queue V) items name q ⊎ Refuses (map_queue V) items name holds q
    cases_lem = elim (List-cases (deque_of real_name q.queues)) [
      | inl e ↦ inr (refuses_lem e)
      | inr (t, d, e) ↦ inl (takes_lem t d e)
    ]

    with_deque-IsValid :
        (d : List (QueuedTask V)) → IsNamed (real_name, d) → IsValid q → IsValid (with_deque d)
    with_deque-IsValid d n v = record {
      distinct = put-IsDistinct real_name d q.queues v.distinct;
      named = put-IsNamed real_name d q.queues n v.named;
    }

    pub valid_lem : IsValid q → IsValid (dequeue_any_unsafe (some name) q).0
    valid_lem v = elim (List-cases (deque_of real_name q.queues)) [
      | inl e ↦ rw (refused e) (with_deque-IsValid [] (inl refl) v)
      | inr (t, d, e) ↦
          let n : IsNamed (real_name, t ∷ d) =
            subst (λ k. IsNamed (real_name, k)) e (deque_of-IsNamed real_name q.queues v.named) in
          let ne : real_name ≢ "" = elim n [ inl z ↦ absurd (cc z) | inr k ↦ k ] in
          rw (took t d e) (with_deque-IsValid d (inr ne) v)
    ]

  -- `dequeue` takes out the first eligible task of the deque, which is rotated.
  module _ (name : String) (now : ℕ) (q : MapQueue V) where
    abbrev own : List (QueuedTask V)
    own = deque_of (real_name name q) q.queues

    rotated :
        (d : List (QueuedTask V)) (r : Result (QueuedTask V))
        → dequeue_loop now (length own) own ≡ (d, r)
        → dequeue (some name) now q ≡ (with_deque name q d, r)
    unfolding dequeue
    rotated d r e = rw (dequeue, e) refl

    found_first :
        (t : QueuedTask V) (before after : List (QueuedTask V))
        → own ≡ before ++ t ∷ after
        → All (λ u. is_eligible now u ≡ false) before
        → is_eligible now t ≡ true
        → Gives items (dequeue (some name) now) q
    found_first t before after e waits pass = record {
      task = t;
      rest = with_deque name q (after ++ before);
      taken =
          rotated (after ++ before) (ok t)
            (rw e (dequeue_loop_ready now before t after waits pass));
      fewer = omega (
        arith,
        length-put (real_name name q) (after ++ before) q.queues,
        ap length e,
        length-append before (t ∷ after),
        length-append after before,
      );
      same = λ R.
          let (rest, (p, r)) = All-put (real_name name q) (after ++ before) q.queues R in
          (
            λ a.
                let (x, y) = p.0 a in
                let (z, w) = (All-insert R before t after).0 (subst (All R) e x) in
                let (b, c) = All-split R before after w in
                (z, r.1 (All-append R after before c b, y)),
            λ a.
                let (x, y) = r.0 a.1 in
                let (c, b) = All-split R after before x in
                let z = (All-insert R before t after).1 (a.0, All-append R before after b c) in
                p.1 (subst (All R) (sym e) z, y),
          );
    }

    none_ready :
        All (λ u. is_eligible now u ≡ false) own → Declines items holds (dequeue (some name) now) q
    none_ready waits = record {
      rest = with_deque name q own;
      empty = rotated own (raise (tlo_error queue_empty_error)) (dequeue_loop_idle now own waits);
      same = all_of-put_same (real_name name q) own q.queues refl;
      alike = alike name q own refl;
    }

    pub ready_cases :
        Gives items (dequeue (some name) now) q
        ⊎ (Declines items holds (dequeue (some name) now) q
            × (name ≢ "" → All (λ t. is_eligible now t ≡ false) (holds name q)))
    ready_cases = elim (split_first-Split (is_eligible now) own) [
      | missing h f ↦ inr (
        none_ready h,
        λ ne.
            subst (λ n. All (λ t. is_eligible now t ≡ false) (deque_of n q.queues))
              (own_name name q ne) h,
      )
      | found before t after p fail pass f ↦ inl (found_first t before after p fail pass)
    ]

    pub dequeue-IsValid : IsValid q → IsValid (dequeue (some name) now q).0
    unfolding found_first
    dequeue-IsValid v =
        let n = deque_of-IsNamed (real_name name q) q.queues v.named in
        elim (split_first-Split (is_eligible now) own) [
          | missing h f ↦
              rw (rotated own (raise (tlo_error queue_empty_error)) (dequeue_loop_idle now own h))
                (with_deque-IsValid name q own n v)
          | found before t after p fail pass f ↦
              let taken = (found_first t before after p fail pass).taken in
              let named : real_name name q ≢ "" = elim n [
                | inl z ↦ absurd (has_one before t after (sym p ∙ z))
                | inr k ↦ k
              ] in
              rw taken (with_deque-IsValid name q (after ++ before) (inr named) v)
        ]
