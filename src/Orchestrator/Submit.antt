-- ===== src/Orchestrator/Submit.antt =====
-- `Tlo.submit_task`: what a submission leaves, whether it succeeds or fails.
use tlo.Prelude.{
  String, suc, ◌≡◌, refl, sym, ap, ◌∙◌, Option, none, some, arith, Option-cases, inl, inr,
}
use tlo.Prelude.Dict
use tlo.Errors.{Result-cases, ok, raise, Exception, tlo_error, config_error}
use tlo.Task.{Values, QueuedTask, TaskStateRecord, Eta, normalise_eta}
use tlo.StateStore
use tlo.Queue.Order.{name_or_default}
use tlo.Scheduler.{new_record}
use tlo.System.{QueueProtocol, System}
use tlo.Orchestrator.{exclusive_key_of, submit_task}

module _ {V : Values} {P : QueueProtocol V} (s : System P) (name : String) (args : V.Args)
    (kwargs : V.Kwargs) (queue_name : Option String) (eta : Eta) where
  abbrev pub submitted : Option String → QueuedTask V
  submitted key = record {
    task_name = name;
    queue_name = name_or_default queue_name s.settings.default_queue;
    id = s.uuids s.drawn;
    args = args;
    kwargs = kwargs;
    enqueued_at = s.times s.reads;
    eta = normalise_eta eta;
    exclusive_key = key;
  }

  abbrev pub after_submit : Option String → System P
  after_submit key = record s {
    drawn = suc s.drawn;
    reads = suc s.reads;
    store = Dict.insert (s.uuids s.drawn) (new_record "Tlo" (submitted key)) s.store;
    queue = P.enqueue (submitted key) s.queue;
  }

  -- A submitted task whose exclusive key renders and whose new id has no record is enqueued on the
  -- queue that is named, or the default one, with a pending record of the same id; an id is drawn,
  -- the clock is read once, and nothing else changes.
  pub submit_task_lem :
      (key : Option String)
      → exclusive_key_of name args kwargs s ≡ ok key
      → Dict.lookup (s.uuids s.drawn) s.store ≡ none
      → submit_task name args kwargs queue_name eta s ≡ (after_submit key, ok tt)
  unfolding submit_task
  submit_task_lem key e new =
      rw (e, StateStore.create_new (new_record "Tlo" (submitted key)) s.store new) refl

  pub submit_task_unrendered :
      (x : Exception)
      → exclusive_key_of name args kwargs s ≡ raise x
      → submit_task name args kwargs queue_name eta s ≡ (s, raise x)
  unfolding submit_task
  submit_task_unrendered x e = rw e refl

  pub submit_task_taken :
      (key : Option String) (r : TaskStateRecord V)
      → exclusive_key_of name args kwargs s ≡ ok key
      → Dict.lookup (s.uuids s.drawn) s.store ≡ some r
      → submit_task name args kwargs queue_name eta s
        ≡ (record s { drawn = suc s.drawn; reads = suc s.reads }, raise (tlo_error config_error))
  unfolding submit_task
  submit_task_taken key r e f =
      rw (e, StateStore.create_taken (new_record "Tlo" (submitted key)) s.store f) refl

  -- A submission that raises leaves the queue and every record as they were.
  pub submit_task_failed :
      (u : System P) (x : Exception)
      → submit_task name args kwargs queue_name eta s ≡ (u, raise x)
      → (u.queue ≡ s.queue) × (u.store ≡ s.store)
  unfolding submit_task
  submit_task_failed u x h = elim (Result-cases (exclusive_key_of name args kwargs s)) [
    | inr (y, e) ↦
        let g = sym h ∙ submit_task_unrendered y e in (ap (λ p. p.0.queue) g, ap (λ p. p.0.store) g)
    | inl (key, e) ↦ elim (Option-cases (Dict.lookup (s.uuids s.drawn) s.store)) [
      | inl f ↦
          let g = ap (λ p. p.1) (sym h ∙ submit_task_lem key e f) in absurd (ground (arith, g))
      | inr (r, f) ↦
          let g = sym h ∙ submit_task_taken key r e f in
          (ap (λ p. p.0.queue) g, ap (λ p. p.0.store) g)
    ]
  ]
