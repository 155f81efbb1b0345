-- ===== src/Executor/Drain/Waits.antt =====
-- What the loop of `_drain_queue` leaves in the queues: tasks that wait for their ETA.
use tlo.Prelude.{
  String, ℕ, zero, suc, ◌≤◌, ◌<◌, ◌≡◌, ◌≢◌, refl, true, false, ◌||◌, ◌⊎◌, inl, inr, some, List, [],
  ◌∷◌, All, All-imp, length, arith, ◌∙◌, ap, sym, subst,
}
use tlo.Errors.{ok}
use tlo.Task.{Values, QueuedTask, TaskStateRecord}
use tlo.Queue.Order.{is_eligible}
use tlo.System.{QueueProtocol, System}
use tlo.QueueLaws.{QueueLaws, Declines}
use tlo.Executor.{Calls, drain_one, drain_queue, sweep_once}
use tlo.Executor.Sweep.{pass, chain}
use tlo.Executor.Pending.{Evolves, pending, declined}
use tlo.Executor.Drain.{LeavesSystem, IsRunRecord}
use tlo.Executor.Drain.Sweeps.{
  Ready, at_time, one_taken, declined-Ready, drain_refused, drain_one-Swept, drain_queue-SweptUp,
}

module _ {V : Values} {P : QueueProtocol V} where
  -- A task that may not run yet at some reading of the clock from a state on.
  abbrev pub Waits : System P → QueuedTask V → Type 0
  Waits s t = (i : ℕ) × (s.reads ≤ i) × (is_eligible (s.times i) t ≡ false)

module _ {V : Values} {P : QueueProtocol V} (L : QueueLaws P) (IsEnd : TaskStateRecord V → Type 0)
    (ends : (r : TaskStateRecord V) → IsRunRecord r → IsEnd r) (calls : Calls P)
    (leaves : LeavesSystem calls) where
  open L use {items, holds}

  -- The tasks of a counted queue wait.
  abbrev QueueWaits : System P → String × ℕ → Type 0
  QueueWaits s e = (e.1 ≡ 0) ⊎ (e.0 ≢ "" → All (Waits s) (holds e.0 s.queue))

  -- A pass that made no progress.
  record Idle (s u : System P) (es : List (String × ℕ)) : Type 0 where
    same : items u.queue ≡ items s.queue
    waits : All (QueueWaits s) es

  -- A queue that declines is followed by the others.
  declined_first :
      (name : String) (n : ℕ) (es : List (String × ℕ)) (s : System P)
      (k : Declines items holds (at_time L s name) s.queue)
      → sweep_once (drain_one calls) ((name, suc n) ∷ es) false s
        ≡ sweep_once (drain_one calls) es false (record s { queue = k.rest; reads = suc s.reads })
  unfolding sweep_once
  declined_first name n es s k = rw (drain_refused L calls s name n k) refl

  later_waits :
      (s : System P) (q : P.Queue) (e : String × ℕ)
      → ((name : String) → holds name q ≡ holds name s.queue)
      → QueueWaits (record s { queue = q; reads = suc s.reads }) e
      → QueueWaits s e
  later_waits s q e same (inl z) = inl z
  later_waits s q e same (inr f) = inr (λ ne.
      All-imp (Waits (record s { queue = q; reads = suc s.reads })) (Waits s)
        (λ t (i, h, w). (i, omega (arith, h), w)) (holds e.0 s.queue)
        (subst (All _) (same e.0) (f ne)))

  Waits-earlier :
      (s u : System P) → Evolves L IsEnd s u → (t : QueuedTask V) → Waits u t → Waits s t
  Waits-earlier s u e t (i, h, w) =
      (i, omega (arith, h, e.later), subst (λ c. is_eligible (c i) t ≡ false) e.same_times w)

  pass-Idle :
      (es : List (String × ℕ)) (s u : System P)
      → Ready L s
      → sweep_once (drain_one calls) es false s ≡ (u, ok false)
      → Idle s u es
  unfolding sweep_once drain_one
  pass-Idle [] s u i e = record { same = ap (λ x. items x.0.queue) (sym e); waits = tt }
  pass-Idle ((name, zero) ∷ es) s u i e =
      let w = pass-Idle es s u i e in record { same = w.same; waits = (inl refl, w.waits) }
  pass-Idle ((name, suc n) ∷ es) s u i e =
      let M = pending L IsEnd (Ready L) in
      elim (L.dequeue_cases name (s.times s.reads) s.queue) [
        | inl k ↦
            let (v, m) = one_taken L IsEnd ends calls leaves s name n i k in
            let w =
              pass M (drain_one calls) (drain_one-Swept L IsEnd ends calls leaves) es
                (false || v.made) v.state v.keeps in
            let (x, same) = chain M (drain_one calls) false s (name, suc n) es v w in
            let progress : x.made ≡ true = same ∙ w.stays m in
            let none_made : ok x.made ≡ ok false = ap (λ y. y.1) (sym x.ends ∙ e) in
            absurd (ground (arith, progress, none_made))
        | inr (k, f) ↦
            let ready = declined-Ready L IsEnd ends calls leaves s name n i k in
            let w =
              pass-Idle es (declined L IsEnd s k (suc s.reads)) u ready
                (sym (declined_first name n es s k) ∙ e) in
            record {
              same = w.same ∙ k.same;
              waits = (
                inr (λ ne.
                    All-imp (λ t. is_eligible (s.times s.reads) t ≡ false) (Waits s)
                      (λ t h. (s.reads, omega arith, h)) (holds name s.queue) (f ne)),
                All-imp _ _ (λ x. later_waits s k.rest x k.alike) es w.waits,
              );
            }
      ]

  -- The loop ends, and each task that is left waits.
  pub drain_queue-Evolves :
      (fuel : ℕ) (s : System P)
      → Ready L s
      → length (items s.queue) < fuel
      → (u : System P) × (drain_queue calls fuel s ≡ some (u, ok tt))
        × Ready L u
        × (length (items u.queue) ≤ length (items s.queue))
        × Evolves L IsEnd s u
        × All (Waits s) (items u.queue)
  unfolding drain_queue
  drain_queue-Evolves fuel s i h =
      let w = drain_queue-SweptUp L IsEnd ends calls leaves fuel s i h in
      let es = P.total_tasks_by_queue w.last.queue in
      let idle = pass-Idle es w.last w.state w.last_keeps w.idle in
      let here = L.held (Waits w.last) w.last.queue w.last_keeps.inv.valid idle.waits in
      let earlier =
        λ (t : QueuedTask V) (x : Waits w.last t). Waits-earlier s w.last w.last_evolves t x in
      (
        w.state,
        w.ends,
        w.keeps,
        w.fewer,
        w.evolves,
        subst (All (Waits s)) (sym idle.same) (All-imp (Waits w.last) (Waits s) earlier _ here),
      )
