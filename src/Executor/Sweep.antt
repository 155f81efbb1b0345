-- ===== src/Executor/Sweep.antt =====
-- The `while True` loops of `_cancel_pending_tasks` and `_drain_queue`, for any treatment of one
-- queue that makes progress only if a task leaves.
use tlo.Prelude.{
  String, ℕ, zero, suc, ◌≤◌, ◌<◌, ◌≡◌, refl, Bool, true, false, ◌||◌, ◌⊎◌, inl, inr, some, List, [],
  ◌∷◌, arith, ◌∙◌, ap, Bool-cases, sym, subst, Option, none,
}
use tlo.Errors.{Result, ok, Action}
use tlo.Task.{Values}
use tlo.System.{QueueProtocol, System}
use tlo.Executor.{sweep_once, sweep}

-- What a sweep keeps, how it may change the system, and what it counts down.
pub record Measure {V : Values} (P : QueueProtocol V) : Type 2 where
  pub count : System P → ℕ
  pub Keeps : System P → Type 0
  pub Evolves : System P → System P → Type 1
  pub evolves_refl : (s : System P) → Evolves s s
  pub evolves_trans : {s t u : System P} → Evolves s t → Evolves t u → Evolves s u

-- What a step or a pass leaves; `before` says whether there was progress before it. It makes
-- progress only if a task leaves.
pub record Swept {V : Values} {P : QueueProtocol V} (M : Measure P) (before : Bool) (s : System P)
    (r : System P × Result Bool) : Type 1 where
  pub state : System P
  pub made : Bool
  pub ends : r ≡ (state, ok made)
  pub keeps : M.Keeps state
  pub evolves : M.Evolves s state
  pub fewer : M.count state ≤ M.count s
  pub gains : made ≡ true → (before ≡ true) ⊎ (M.count state < M.count s)
  pub stays : before ≡ true → made ≡ true

pub state_of :
    {S A : Type 0} {s u : S} {q r : Result A}
    → Path (Option (S × Result A)) (some (s, q)) (some (u, r))
    → s ≡ u
state_of {S} {A} {s} e = ap (λ (o : Option (S × Result A)). elim o [ some x ↦ x.0 | none ↦ s ]) e

-- Where a whole sweep ends: its last pass made no progress.
pub record SweptUp {V : Values} {P : QueueProtocol V} (M : Measure P)
    (one : String × ℕ → Action (System P) Bool) (fuel : ℕ) (s : System P) : Type 1 where
  pub last : System P
  pub state : System P
  pub ends : sweep one fuel s ≡ some (state, ok tt)
  pub idle : sweep_once one (P.total_tasks_by_queue last.queue) false last ≡ (state, ok false)
  pub last_keeps : M.Keeps last
  pub last_evolves : M.Evolves s last
  pub keeps : M.Keeps state
  pub evolves : M.Evolves s state
  pub fewer : M.count state ≤ M.count s

module _ {V : Values} {P : QueueProtocol V} (M : Measure P) where
  -- Nothing happens.
  pub unchanged : (before : Bool) (s : System P) → M.Keeps s → Swept M before s (s, ok before)
  unchanged before s i = record {
    state = s;
    made = before;
    ends = refl;
    keeps = i;
    evolves = M.evolves_refl s;
    fewer = omega arith;
    gains = λ h. inl h;
    stays = λ h. h;
  }

  module _ (one : String × ℕ → Action (System P) Bool) where
    pub chain :
        (before : Bool) (s : System P) (e : String × ℕ) (es : List (String × ℕ))
        → (v : Swept M false s (one e s))
        → (w : Swept M (before || v.made) v.state (sweep_once one es (before || v.made) v.state))
        → (u : Swept M before s (sweep_once one (e ∷ es) before s)) × (u.made ≡ w.made)
    unfolding sweep_once
    chain before s e es v w = (
      record {
        state = w.state;
        made = w.made;
        ends = rw (v.ends) w.ends;
        keeps = w.keeps;
        evolves = M.evolves_trans v.evolves w.evolves;
        fewer = omega (arith, v.fewer, w.fewer);
        gains = λ h. ground (arith, v.fewer, w.fewer, w.gains h, v.gains);
        stays = λ h. ground (arith, w.stays);
      },
      refl,
    )

    module _ (step : (s : System P) (e : String × ℕ) → M.Keeps s → Swept M false s (one e s)) where
      pub pass :
          (es : List (String × ℕ)) (before : Bool) (s : System P)
          → M.Keeps s
          → Swept M before s (sweep_once one es before s)
      unfolding sweep_once
      pass [] before s i = unchanged before s i
      pass (e ∷ es) before s i =
          let v = step s e i in
          (chain before s e es v (pass es (before || v.made) v.state v.keeps)).0

      module _ (s : System P) (fuel : ℕ) where
        sweep_stops :
            (es : List (String × ℕ)) (u : System P)
            → P.total_tasks_by_queue s.queue ≡ es
            → sweep_once one (P.total_tasks_by_queue s.queue) false s ≡ (u, ok false)
            → sweep one (suc fuel) s ≡ some (u, ok tt)
        unfolding sweep sweep_once
        sweep_stops [] u e f =
            let g : (s, ok false) ≡ (u, ok false) = rw e at f in
            rw (sweep, e) (ap (λ r. some (r.0, ok tt)) g)
        sweep_stops (x ∷ es) u e f = rw (sweep, e, f) (ap (λ r. some (r.0, ok tt)) f)

        sweep_goes_on :
            (es : List (String × ℕ)) (u : System P)
            → P.total_tasks_by_queue s.queue ≡ es
            → sweep_once one (P.total_tasks_by_queue s.queue) false s ≡ (u, ok true)
            → sweep one (suc fuel) s ≡ sweep one fuel u
        unfolding sweep sweep_once
        sweep_goes_on [] u e f = let g = rw e at f in absurd (ground (arith, ap (λ r. r.1) g))
        sweep_goes_on (x ∷ es) u e f = rw (sweep, e, f) (ap (λ r. sweep one fuel r.0) f)

      -- Where a sweep ends, whatever its fuel, it ends with no exception.
      pub sweep-Keeps :
          (fuel : ℕ) (s u : System P) (r : Result (Unit {0}))
          → M.Keeps s
          → sweep one fuel s ≡ some (u, r)
          → M.Keeps u × M.Evolves s u
      unfolding sweep
      sweep-Keeps zero s u r i e = absurd (ground (arith, e))
      sweep-Keeps (suc fuel) s u r i e =
          let es = P.total_tasks_by_queue s.queue in
          let w = pass es false s i in
          elim (Bool-cases w.made) [
            | inr m ↦
                let f = sweep_stops s fuel es w.state refl (w.ends ∙ ap (λ b. (w.state, ok b)) m) in
                subst (λ x. M.Keeps x × M.Evolves s x) (state_of (sym f ∙ e)) (w.keeps, w.evolves)
            | inl m ↦
                let f =
                  sweep_goes_on s fuel es w.state refl (w.ends ∙ ap (λ b. (w.state, ok b)) m) in
                let (k, v) = sweep-Keeps fuel w.state u r w.keeps (sym f ∙ e) in
                (k, M.evolves_trans w.evolves v)
          ]

      -- A sweep with more fuel than there is to count ends, with no exception.
      pub sweeps : (fuel : ℕ) (s : System P) → M.Keeps s → M.count s < fuel → SweptUp M one fuel s
      sweeps zero s i h = absurd (omega arith)
      sweeps (suc fuel) s i h =
          let es = P.total_tasks_by_queue s.queue in
          let w = pass es false s i in
          elim (Bool-cases w.made) [
            | inr m ↦
                let e = w.ends ∙ ap (λ b. (w.state, ok b)) m in
                record {
                  last = s;
                  state = w.state;
                  ends = sweep_stops s fuel es w.state refl e;
                  idle = e;
                  last_keeps = i;
                  last_evolves = M.evolves_refl s;
                  keeps = w.keeps;
                  evolves = w.evolves;
                  fewer = w.fewer;
                }
            | inl m ↦
                let e = w.ends ∙ ap (λ b. (w.state, ok b)) m in
                let less : M.count w.state < M.count s = ground (arith, w.gains m) in
                let v = sweeps fuel w.state w.keeps (omega (arith, less)) in
                record {
                  last = v.last;
                  state = v.state;
                  ends = sweep_goes_on s fuel es w.state refl e ∙ v.ends;
                  idle = v.idle;
                  last_keeps = v.last_keeps;
                  last_evolves = M.evolves_trans w.evolves v.last_evolves;
                  keeps = v.keeps;
                  evolves = M.evolves_trans w.evolves v.evolves;
                  fewer = omega (arith, v.fewer, less);
                }
          ]
