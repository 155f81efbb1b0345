-- ===== src/Orchestrator/Invariant.antt =====
-- `Tlo.submit_task` and the invariant on which the executor relies.
use tlo.Prelude.{String, ◌≢◌, sym, subst, Option, All-imp, Option-cases, inl, inr}
use tlo.Prelude.Dict
use tlo.Errors.{Result-cases}
use tlo.Task.{Values, Eta}
use tlo.StateStore
use tlo.Queue.Order.{name_or_default}
use tlo.Scheduler.{new_record}
use tlo.System.{QueueProtocol, System}
use tlo.QueueLaws.{QueueLaws}
use tlo.Executor.Pending.{Inv, IsStored}
use tlo.Orchestrator.{exclusive_key_of, submit_task}
use tlo.Orchestrator.Submit.{
  submitted, after_submit, submit_task_lem, submit_task_taken, submit_task_unrendered,
}

module _ {V : Values} {P : QueueProtocol V} (L : QueueLaws P) (s : System P) (name : String)
    (args : V.Args) (kwargs : V.Kwargs) (queue_name : Option String) (eta : Eta) where
  open L use {items}

  pub after_submit-Inv :
      (key : Option String)
      → name_or_default queue_name s.settings.default_queue ≢ ""
      → Inv L s
      → Inv L (after_submit s name args kwargs queue_name eta key)
  after_submit-Inv key ne i =
      let t = submitted s name args kwargs queue_name eta key in
      let r = new_record "Tlo" t in
      let u = after_submit s name args kwargs queue_name eta key in
      record {
        valid = L.enqueue-IsValid t s.queue ne i.valid;
        stored = (L.enqueue_same (IsStored L u) t s.queue).1 (
          StateStore.insert_same r s.store,
          All-imp (IsStored L s) (IsStored L u) (λ x. StateStore.insert-stored r s.store x.id)
              (items s.queue) i.stored,
        );
        keyed = StateStore.insert-IsKeyed r s.store i.keyed;
      }

  -- Over a queue that keeps the laws of QueueLaws, a submission to a queue whose name, once an
  -- empty one is replaced by the default, is not empty keeps Inv (the queue is valid, each queued
  -- task has a record, and each record stands under its own id), whether it succeeds or raises.
  pub submit_task-Inv :
      name_or_default queue_name s.settings.default_queue ≢ ""
      → Inv L s
      → Inv L (submit_task name args kwargs queue_name eta s).0
  submit_task-Inv ne i = elim (Result-cases (exclusive_key_of name args kwargs s)) [
    | inr (x, e) ↦
        let g = submit_task_unrendered s name args kwargs queue_name eta x e in
        subst (λ p. Inv L p.0) (sym g) i
    | inl (key, e) ↦ elim (Option-cases (Dict.lookup (s.uuids s.drawn) s.store)) [
      | inl f ↦
          let g = submit_task_lem s name args kwargs queue_name eta key e f in
          subst (λ p. Inv L p.0) (sym g) (after_submit-Inv key ne i)
      | inr (r, f) ↦
          let g = submit_task_taken s name args kwargs queue_name eta key r e f in
          subst (λ p. Inv L p.0) (sym g)
            (record { valid = i.valid; stored = i.stored; keyed = i.keyed })
    ]
  ]
