-- ===== src/Executor/Cancel/Sweeps.antt =====
-- The loop of `_cancel_pending_tasks`: it ends, and no task is left behind.
use tlo.Prelude.{
  String, ℕ, zero, suc, ◌<◌, ◌≡◌, ◌≢◌, refl, true, false, ◌||◌, ◌⊎◌, inl, inr, some, List, [], ◌∷◌,
  All, length, arith, ◌∙◌, ap, sym, subst,
}
use tlo.Prelude.Dict
use tlo.Errors.{ok}
use tlo.Task.{Values, TaskStateRecord}
use tlo.System.{QueueProtocol, System}
use tlo.QueueLaws.{QueueLaws, Takes}
use tlo.Executor.{cancel_one, sweep_once, cancel_pending_tasks}
use tlo.Executor.Sweep.{Swept, chain, pass, sweeps}
use tlo.Executor.Pending.{Inv, IsDone, Evolves, pending}
use tlo.Executor.Cancel.{IsCancelled, IsCancelledRecord, one_taken, cancel_one-Swept}

module _ {V : Values} {P : QueueProtocol V} (L : QueueLaws P) where
  open L use {items}

  module _ (IsEnd : TaskStateRecord V → Type 0)
      (ends : (r : TaskStateRecord V) → IsCancelledRecord r → IsEnd r) where
    -- A pass over queues of which each that is counted has a task: either none is counted, or it
    -- makes progress.
    pass_counted :
        (es : List (String × ℕ)) (s : System P)
        → Inv L s
        → All (λ e. (e.1 ≡ 0) ⊎ Takes P items e.0 s.queue) es
        → (All (λ e. e.1 ≡ 0) es × (sweep_once cancel_one es false s ≡ (s, ok false)))
          ⊎ ((w : Swept (pending L IsEnd (Inv L)) false s (sweep_once cancel_one es false s))
              × (w.made ≡ true))
    unfolding sweep_once cancel_one
    pass_counted [] s i h = inl (tt, refl)
    pass_counted ((name, zero) ∷ es) s i h = elim (pass_counted es s i h.1) [
      | inl (z, e) ↦ inl ((refl, z), e)
      | inr (w, m) ↦ inr (w, m)
    ]
    pass_counted ((name, suc n) ∷ es) s i h = elim h.0 [
      | inl z ↦ absurd (omega arith)
      | inr k ↦
          let M = pending L IsEnd (Inv L) in
          let (v, m) = one_taken L IsEnd ends s name n i k in
          let w =
            pass M cancel_one (cancel_one-Swept L IsEnd ends) es (false || v.made) v.state
              v.keeps in
          let (u, same) = chain M cancel_one false s (name, suc n) es v w in
          inr (u, same ∙ w.stays m)
    ]

    -- Where the last pass makes no progress, there was no task any more.
    last_pass :
        (s u : System P)
        → Inv L s
        → sweep_once cancel_one (P.total_tasks_by_queue s.queue) false s ≡ (u, ok false)
        → items u.queue ≡ []
    last_pass s u i e =
        elim (pass_counted (P.total_tasks_by_queue s.queue) s i (L.counted s.queue i.valid)) [
          | inl (z, f) ↦
              let same : s ≡ u = ap (λ x. x.0) (sym f ∙ e) in
              subst (λ x. items x.queue ≡ []) same (L.all_counted s.queue z)
          | inr (w, m) ↦
              let same : ok w.made ≡ ok false = ap (λ x. x.1) (sym w.ends ∙ e) in
              absurd (ground (arith, same, m))
        ]

    pub cancel_pending_tasks-Evolves :
        (fuel : ℕ) (s : System P)
        → Inv L s
        → length (items s.queue) < fuel
        → (u : System P) × (cancel_pending_tasks fuel s ≡ some (u, ok tt))
          × (items u.queue ≡ [])
          × Evolves L IsEnd s u
    unfolding cancel_pending_tasks
    cancel_pending_tasks-Evolves fuel s i h =
        let w =
          sweeps (pending L IsEnd (Inv L)) cancel_one (cancel_one-Swept L IsEnd ends) fuel s i h in
        (w.state, w.ends, last_pass w.last w.state w.last_keeps w.idle, w.evolves)

  pub IsDone-IsCancelled :
      (s : System P) (id : String) → IsDone L IsCancelledRecord s id → IsCancelled L s id
  IsDone-IsCancelled s id (r, l, (f, st, fi)) = (r, f, l, st, fi)

  -- Over a queue that keeps the laws of QueueLaws, in a state that keeps Inv (the queue is valid,
  -- each queued task has a record, and each record stands under its own id), the loop of
  -- _cancel_pending_tasks ends without an exception within as many rounds as there are queued
  -- tasks, and one. Behind it the queue is empty, the record of each task that was queued is
  -- cancelled with a time of finishing, and the record of every other id is as it was.
  pub cancel_pending_tasks_lem :
      (fuel : ℕ) (s : System P)
      → Inv L s
      → length (items s.queue) < fuel
      → (u : System P) × (cancel_pending_tasks fuel s ≡ some (u, ok tt))
        × (items u.queue ≡ [])
        × All (λ t. IsCancelled L u t.id) (items s.queue)
        × ((id : String)
            → All (λ t. t.id ≢ id) (items s.queue)
            → Dict.lookup id u.store ≡ Dict.lookup id s.store)
  cancel_pending_tasks_lem fuel s i h =
      let (u, e, none_left, v) =
        cancel_pending_tasks-Evolves IsCancelledRecord (λ r c. c) fuel s i h in
      (
        u,
        e,
        none_left,
        v.covers (λ t. IsCancelled L u t.id) (λ t c. IsDone-IsCancelled u t.id c) (rw none_left tt),
        λ id a. (v.others id a).1,
      )
