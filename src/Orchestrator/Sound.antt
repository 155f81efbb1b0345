-- ===== src/Orchestrator/Sound.antt =====
-- What each of the calls by which a program and its executor change the runtime keeps.
use tlo.Prelude.{
  String, ℕ, zero, suc, ◌≡◌, ◌≢◌, refl, ◌∙◌, ap, sym, subst, inl, inr, Bool, true, false,
  Bool-cases, Option, none, some, List, [], ◌∷◌, All, arith, if◌then◌else◌,
}
use tlo.Errors.{Result, ok, raise}
use tlo.Task.{Values, QueuedTask}
use tlo.Locking.{is_locked}
use tlo.System.{QueueProtocol, System}
use tlo.QueueLaws.{QueueLaws}
use tlo.Scheduler.{tick}
use tlo.Scheduler.Invariant.{tick-Keeps, tick_leaves}
use tlo.Executor.{
  Calls, drain_one, cancel_one, drain_queue, cancel_pending_tasks, and_then, run_loop,
}
use tlo.Executor.Sweep.{sweep-Keeps, state_of}
use tlo.Executor.Pending.{Inv, Evolves, pending}
use tlo.Executor.Cancel.{IsCancelledRecord, cancel_one-Swept}
use tlo.Executor.Drain.{LeavesSystem, IsFree, IsRunRecord}
use tlo.Executor.Drain.Sweeps.{Ready, drain_one-Swept}

all_hold :
    {V : Values} (R : QueuedTask V → Type 0)
    → ((t : QueuedTask V) → R t)
    → (ts : List (QueuedTask V)) → All R ts
all_hold R f [] = tt
all_hold R f (t ∷ ts) = (f t, all_hold R f ts)

module _ {V : Values} {P : QueueProtocol V} (L : QueueLaws P) where
  open L use {items}

  -- The invariant of a whole runtime between two calls.
  pub record Sound (s : System P) : Type 0 where
    pub inv : Inv L s
    pub free : (key : String) → is_locked key s.locker ≡ false
    pub named : P.default_queue s.queue ≢ ""
    pub settings_named : s.settings.default_queue ≢ ""

  keys_free : (s : System P) → Sound s → (o : Option String) → IsFree s.locker o
  keys_free s i none = tt
  keys_free s i (some key) = i.free key

  pub Sound-Ready : (s : System P) → Sound s → Ready L s
  Sound-Ready s i = record {
    inv = i.inv;
    free = all_hold _ (λ t. keys_free s i t.exclusive_key) (items s.queue);
  }

  evolved-Sound : (IsEnd : _) (s u : System P) → Evolves L IsEnd s u → Inv L u → Sound s → Sound u
  evolved-Sound IsEnd s u e j i = record {
    inv = j;
    free = λ key. e.frees key (i.free key);
    named = subst (λ n. n ≢ "") (sym e.same_default) i.named;
    settings_named = subst (λ c. c.default_queue ≢ "") (sym e.same_settings) i.settings_named;
  }

  pub stopped-Sound : (s : System P) (b : Bool) → Sound s → Sound (record s { running = b })
  stopped-Sound s b i = record {
    inv = record { valid = i.inv.valid; stored = i.inv.stored; keyed = i.inv.keyed };
    free = i.free;
    named = i.named;
    settings_named = i.settings_named;
  }

  pub tick-Sound : (s : System P) → Sound s → Sound (tick s).0
  tick-Sound s i =
      let k = tick-Keeps L s (record { inv = i.inv; named = i.named }) in
      let (same_locker, same_settings) = tick_leaves s in
      record {
        inv = k.inv;
        free = λ key. rw same_locker (i.free key);
        named = k.named;
        settings_named = rw same_settings i.settings_named;
      }

  module _ (fuel : ℕ) (s u : System P) (r : Result (Unit {0})) where
    pub cancel_pending_tasks-Sound : cancel_pending_tasks fuel s ≡ some (u, r) → Sound s → Sound u
    unfolding cancel_pending_tasks
    cancel_pending_tasks-Sound e i =
        let (j, v) =
          sweep-Keeps (pending L IsCancelledRecord (Inv L)) cancel_one
            (cancel_one-Swept L IsCancelledRecord (λ o x. x)) fuel s u r i.inv e in
        evolved-Sound IsCancelledRecord s u v j i

    pub drain_queue-Sound :
        (calls : Calls P)
        → LeavesSystem calls
        → drain_queue calls fuel s ≡ some (u, r)
        → Sound s
        → Sound u
    unfolding drain_queue
    drain_queue-Sound calls leaves e i =
        let (j, v) =
          sweep-Keeps (pending L IsRunRecord (Ready L)) (drain_one calls)
            (drain_one-Swept L IsRunRecord (λ o x. x) calls leaves) fuel s u r (Sound-Ready s i)
            e in
        evolved-Sound IsRunRecord s u v j.inv i

  -- A loop behind another keeps what both keep.
  pub and_then-Sound :
      (o : Option (System P × Result (Unit {0})))
      (f : System P → Option (System P × Result (Unit {0}))) (u : System P) (r : Result (Unit {0}))
      → ((d : System P) (q : Result (Unit {0})) → o ≡ some (d, q) → Sound d)
      → ((d : System P) → Sound d → f d ≡ some (u, r) → Sound u)
      → and_then o f ≡ some (u, r)
      → Sound u
  and_then-Sound none f u r h k e = absurd (ground (arith, e))
  and_then-Sound (some (d, ok x)) f u r h k e = k d (h d (ok x) refl) e
  and_then-Sound (some (d, raise x)) f u r h k e = subst Sound (state_of e) (h d (raise x) refl)

  module _ (calls : Calls P) (leaves : LeavesSystem calls) (fuel : ℕ) where
    drain_behind :
        (o : Option (System P × Result (Unit {0}))) (u : System P) (r : Result (Unit {0}))
        → ((d : System P) (q : Result (Unit {0})) → o ≡ some (d, q) → Sound d)
        → and_then o (drain_queue calls fuel) ≡ some (u, r)
        → Sound u
    drain_behind o u r h =
        and_then-Sound o (drain_queue calls fuel) u r h
          (λ d i e. drain_queue-Sound fuel d u r calls leaves e i)

    round : ℕ → System P → Option (System P × Result (Unit {0}))
    round rounds s =
        and_then (and_then (some (tick s)) (drain_queue calls fuel)) (run_loop calls fuel rounds)

    run_loop_on :
        (rounds : ℕ) (s : System P)
        → s.running ≡ true
        → run_loop calls fuel (suc rounds) s ≡ round rounds s
    unfolding run_loop round
    run_loop_on rounds s b = ap (λ on. if on then round rounds s else some (s, ok tt)) b

    run_loop_off :
        (rounds : ℕ) (s : System P)
        → s.running ≡ false
        → run_loop calls fuel (suc rounds) s ≡ some (s, ok tt)
    unfolding run_loop round
    run_loop_off rounds s b = ap (λ on. if on then round rounds s else some (s, ok tt)) b

    pub run_loop-Sound :
        (rounds : ℕ) (s u : System P) (r : Result (Unit {0}))
        → run_loop calls fuel rounds s ≡ some (u, r)
        → Sound s
        → Sound u
    unfolding run_loop round
    run_loop-Sound zero s u r e i = absurd (ground (arith, e))
    run_loop-Sound (suc rounds) s u r e i = elim (Bool-cases s.running) [
      | inr b ↦ subst Sound (state_of (sym (run_loop_off rounds s b) ∙ e)) i
      | inl b ↦
          and_then-Sound (and_then (some (tick s)) (drain_queue calls fuel))
            (run_loop calls fuel rounds) u r
            (λ d q.
              drain_behind (some (tick s)) d q (λ t p k. subst Sound (state_of k) (tick-Sound s i)))
            (λ d j k. run_loop-Sound rounds d u r k j) (sym (run_loop_on rounds s b) ∙ e)
    ]
