-- ===== src/Orchestrator/Kept.antt =====
-- What a submission, `stop` and `run` keep.
use tlo.Prelude.{
  String, ℕ, ◌≡◌, ◌≢◌, refl, ◌∙◌, sym, subst, inl, inr, Bool, false, Option, none, some,
  Option-cases, if◌then◌else◌, if_neg, if_pos, text_dec, true,
}
use tlo.Prelude.Dict
use tlo.Errors.{Result, Result-cases, ok}
use tlo.Task.{Values, Eta}
use tlo.Queue.Order.{name_or_default}
use tlo.System.{QueueProtocol, System, StopBehavior, drain, cancel, ignore}
use tlo.QueueLaws.{QueueLaws}
use tlo.Executor.{Calls, drain_queue, cancel_pending_tasks, run_loop, handle_stop_pending, and_then}
use tlo.Executor
use tlo.Executor.Sweep.{state_of}
use tlo.Executor.Drain.{LeavesSystem}
use tlo.Orchestrator.{exclusive_key_of, submit_task, run}
use tlo.Orchestrator.Submit.{submitted, submit_task_lem, submit_task_taken, submit_task_unrendered}
use tlo.Orchestrator.Invariant.{submit_task-Inv}
use tlo.Orchestrator.Sound.{
  Sound, stopped-Sound, drain_queue-Sound, cancel_pending_tasks-Sound, and_then-Sound,
  run_loop-Sound,
}

-- The name of a queue is never empty where the default is not.
named_queue : (o : Option String) (default : String) → default ≢ "" → name_or_default o default ≢ ""
unfolding name_or_default
named_queue none default h = h
named_queue (some n) default h = elim (text_dec n "") [
  | yes p ↦ subst (λ x. x ≢ "") (sym (if_pos (text_dec n "") p default n)) h
  | no p ↦ subst (λ x. x ≢ "") (sym (if_neg (text_dec n "") p default n)) p
]

module _ {V : Values} {P : QueueProtocol V} (L : QueueLaws P) (s : System P) where
  module _ (name : String) (args : V.Args) (kwargs : V.Kwargs) (queue_name : Option String)
      (eta : Eta) where
    Frame : System P → Type 0
    Frame u =
        (u.locker ≡ s.locker)
        × (u.settings ≡ s.settings)
        × (P.default_queue u.queue ≡ P.default_queue s.queue)

    submit_task-Frame : Frame (submit_task name args kwargs queue_name eta s).0
    unfolding Frame
    submit_task-Frame = elim (Result-cases (exclusive_key_of name args kwargs s)) [
      | inr (x, e) ↦
          let g = submit_task_unrendered s name args kwargs queue_name eta x e in
          subst (λ p. Frame p.0) (sym g) (refl, refl, refl)
      | inl (key, e) ↦ elim (Option-cases (Dict.lookup (s.uuids s.drawn) s.store)) [
        | inl f ↦
            let g = submit_task_lem s name args kwargs queue_name eta key e f in
            let t = submitted s name args kwargs queue_name eta key in
            subst (λ p. Frame p.0) (sym g) (refl, refl, L.default_queue-enqueue t s.queue)
        | inr (r, f) ↦
            let g = submit_task_taken s name args kwargs queue_name eta key r e f in
            subst (λ p. Frame p.0) (sym g) (refl, refl, refl)
      ]
    ]

    pub submit_task-Sound : Sound L s → Sound L (submit_task name args kwargs queue_name eta s).0
    unfolding Frame
    submit_task-Sound i =
        let (same_locker, same_settings, same_default) = submit_task-Frame in
        record {
          inv =
              submit_task-Inv L s name args kwargs queue_name eta
                (named_queue queue_name s.settings.default_queue i.settings_named) i.inv;
          free = λ key. rw same_locker (i.free key);
          named = rw same_default i.named;
          settings_named = rw same_settings i.settings_named;
        }

  module _ (calls : Calls P) (leaves : LeavesSystem calls) (fuel : ℕ) where
    pub handle_stop_pending-Sound :
        (b : StopBehavior) (cancel_requested : Bool) (u : System P) (r : Result (Unit {0}))
        → (if cancel_requested then cancel else s.settings.stop_behavior) ≡ b
        → handle_stop_pending calls fuel cancel_requested s ≡ some (u, r)
        → Sound L s
        → Sound L u
    unfolding handle_stop_pending
    handle_stop_pending-Sound cancel c u r k e i =
        let g : handle_stop_pending calls fuel c s ≡ cancel_pending_tasks fuel s =
          rw (handle_stop_pending, k) refl in
        cancel_pending_tasks-Sound L fuel s u r (sym g ∙ e) i
    handle_stop_pending-Sound ignore c u r k e i =
        let g : handle_stop_pending calls fuel c s ≡ some (s, ok tt) =
          rw (handle_stop_pending, k) refl in
        subst (Sound L) (state_of (sym g ∙ e)) i
    handle_stop_pending-Sound drain c u r k e i =
        let g : handle_stop_pending calls fuel c s
            ≡ and_then (drain_queue calls fuel s) (cancel_pending_tasks fuel) =
          rw (handle_stop_pending, k) refl in
        and_then-Sound L (drain_queue calls fuel s) (cancel_pending_tasks fuel) u r
          (λ d q f. drain_queue-Sound L fuel s d q calls leaves f i)
          (λ d j f. cancel_pending_tasks-Sound L fuel d u r f j) (sym g ∙ e)

    pub run-Sound :
        (rounds : ℕ) (u : System P) (r : Result (Unit {0}))
        → run calls fuel rounds s ≡ some (u, r)
        → Sound L s
        → Sound L u
    unfolding run Executor.run
    run-Sound rounds u r e i =
        let on : System P = record s { running = true } in
        elim (Option-cases (run_loop calls fuel rounds on)) [
          | inl n ↦
              let g : Executor.run calls fuel rounds s ≡ none = rw (Executor.run, n) refl in
              absurd (cc (g, e))
          | inr ((v, q), n) ↦
              let g : Executor.run calls fuel rounds s ≡ some (record v { running = false }, q) =
                rw (Executor.run, n) refl in
              let j =
                run_loop-Sound L calls leaves fuel rounds on v q n (stopped-Sound L s true i) in
              subst (Sound L) (state_of (sym g ∙ e)) (stopped-Sound L v false j)
        ]
