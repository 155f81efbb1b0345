-- ===== src/Orchestrator/Pending.antt =====
-- `Tlo.submit_task` and what `get_task_state` then tells: the pending record and the queued task.
use tlo.Prelude.{
  suc, String, ℕ, ◌*◌, ◌≡◌, ◌≢◌, refl, ap, ◌∙◌, Option, none, some, text_dec, if_pos, if_neg, arith,
}
use tlo.Prelude.Dict
use tlo.Prelude.Dict.{Dict}
use tlo.Errors.{ok}
use tlo.Task.{Values, TaskStateRecord, pending, Eta, no_eta, datetime, timestamp, normalise_eta}
use tlo.StateStore
use tlo.Registry.{TaskDef, get_task, render_exclusive_key, rendered}
use tlo.Scheduler.{new_record}
use tlo.Queue.Order.{name_or_default}
use tlo.System.{QueueProtocol, System}
use tlo.Orchestrator.{exclusive_key_of, submit_task, get_task_state}
use tlo.Orchestrator.Submit.{submit_task_lem, submitted}
use tlo.Executor

-- The name of the queue: the default for none and for the empty text.
pub data QueueName (default : String) : Option String → String → Type 0 where
  not_given : QueueName default none default
  empty : QueueName default (some "") default
  given : {name : String} → name ≢ "" → QueueName default (some name) name

-- The ETA in microseconds; a timestamp is in seconds.
pub data DueAt : Eta → Option ℕ → Type 0 where
  at_once : DueAt no_eta none
  at_datetime : {t : ℕ} → DueAt (datetime t) (some t)
  at_timestamp : {seconds : ℕ} → DueAt (timestamp seconds) (some (1_000_000 * seconds))

name_or_default-QueueName :
    (default name : String) (o : Option String)
    → QueueName default o name
    → name_or_default o default ≡ name
unfolding name_or_default text_dec
name_or_default-QueueName default name o not_given = refl
name_or_default-QueueName default name o empty = refl
name_or_default-QueueName default name o (given h) = if_neg (text_dec name "") h _ _

normalise_eta-DueAt : (eta : Eta) (due : Option ℕ) → DueAt eta due → normalise_eta eta ≡ due
unfolding normalise_eta
normalise_eta-DueAt eta due at_once = refl
normalise_eta-DueAt eta due at_datetime = refl
normalise_eta-DueAt eta due (at_timestamp {seconds}) = ap some (omega arith)

module _ {V : Values} where
  -- The exclusive key: none for a task that is not registered or has no template, and otherwise what
  -- the formatter makes of the template.
  pub data HasKey (name : String) (args : V.Args) (kwargs : V.Kwargs) (tasks : Dict (TaskDef V))
      : Option String → Type 0 where
    unregistered : Dict.lookup name tasks ≡ none → HasKey name args kwargs tasks none
    no_template :
        {d : TaskDef V}
        → Dict.lookup name tasks ≡ some d
        → d.exclusive_template ≡ none
        → HasKey name args kwargs tasks none
    templated :
        {d : TaskDef V} {template key : String}
        → Dict.lookup name tasks ≡ some d
        → d.exclusive_template ≡ some template
        → V.vformat template args kwargs ≡ ok key
        → HasKey name args kwargs tasks (some key)

  exclusive_key_of-HasKey :
      {P : QueueProtocol V} (s : System P) (name : String) (args : V.Args) (kwargs : V.Kwargs)
      (key : Option String)
      → HasKey name args kwargs s.tasks key
      → exclusive_key_of name args kwargs s ≡ ok key
  unfolding exclusive_key_of get_task render_exclusive_key rendered
  exclusive_key_of-HasKey s name args kwargs key (unregistered e) =
      rw (exclusive_key_of, get_task, e) refl
  exclusive_key_of-HasKey s name args kwargs key (no_template e f) =
      rw (exclusive_key_of, get_task, e, render_exclusive_key, f) refl
  exclusive_key_of-HasKey s name args kwargs key (templated e f g) =
      rw (exclusive_key_of, get_task, e, render_exclusive_key, f, g) refl

module _ {V : Values} {P : QueueProtocol V} (s : System P) (name : String) (args : V.Args)
    (kwargs : V.Kwargs) (queue_name : Option String) (eta : Eta) where
  -- What is left of a submission: one task more in the queue, and its record.
  abbrev pub IsSubmitted : String → Option ℕ → Option String → System P → Type 0
  IsSubmitted queue due key u =
      (u ≡ record s { drawn = suc s.drawn; reads = suc s.reads; store = u.store; queue = u.queue })
      × (u.queue
          ≡ P.enqueue
              (record {
                task_name = name;
                queue_name = queue;
                id = s.uuids s.drawn;
                args = args;
                kwargs = kwargs;
                enqueued_at = s.times s.reads;
                eta = due;
                exclusive_key = key;
              })
              s.queue)
      × (((get_task_state (s.uuids s.drawn) u).1
            ≡ ok (record {
              id = s.uuids s.drawn;
              name = name;
              created_at = s.times s.reads;
              created_by = "Tlo";
              started_at = none;
              finished_at = none;
              status = pending;
              result = none;
            }))
          × ((id : String)
              → s.uuids s.drawn ≢ id
              → (get_task_state id u).1 ≡ (get_task_state id s).1))

  -- A task is submitted whose new id has no record and whose template, if the task is registered
  -- and has one, the formatter renders. Then the submission succeeds, whether or not the task is
  -- registered. The queue gets one task with that id, on the default queue if the name is not given
  -- or is empty and on the named one otherwise, with the given arguments, enqueued at the reading
  -- of the clock, with no ETA, the given datetime, or the timestamp in microseconds, and with the
  -- rendered key, or none for a task that is not registered or has no template. get_task_state
  -- gives the new id a record that is pending, created then by Tlo, with no times and no result,
  -- and every other id what it gave before. An id is drawn, the clock is read once, and nothing
  -- else changes.
  pub submit_task-get_task_state :
      (queue : String) (due : Option ℕ) (key : Option String)
      → QueueName s.settings.default_queue queue_name queue
      → DueAt eta due
      → HasKey name args kwargs s.tasks key
      → Dict.lookup (s.uuids s.drawn) s.store ≡ none
      → ((submit_task name args kwargs queue_name eta s).1 ≡ ok tt)
        × IsSubmitted queue due key (submit_task name args kwargs queue_name eta s).0
  unfolding get_task_state Executor.get_task_state StateStore.get
  submit_task-get_task_state queue due key q d k new =
      rw
        (
          submit_task_lem s name args kwargs queue_name eta key
              (exclusive_key_of-HasKey s name args kwargs key k) new,
          name_or_default-QueueName s.settings.default_queue queue queue_name q,
          normalise_eta-DueAt eta due d,
        )
        (refl, (refl, refl, (stored, other)))
    where
      r : TaskStateRecord V
      r = new_record "Tlo" (submitted s name args kwargs queue_name eta key)

      stored : StateStore.get (s.uuids s.drawn) (Dict.insert (s.uuids s.drawn) r s.store) ≡ ok r
      stored = StateStore.get_stored (s.uuids s.drawn) (Dict.insert (s.uuids s.drawn) r s.store) (
          Dict.lookup-insert (s.uuids s.drawn) (s.uuids s.drawn) r s.store
          ∙ if_pos (text_dec (s.uuids s.drawn) (s.uuids s.drawn)) refl _ _)

      other :
          (id : String)
          → s.uuids s.drawn ≢ id
          → StateStore.get id (Dict.insert (s.uuids s.drawn) r s.store) ≡ StateStore.get id s.store
      other id h =
          rw
            (
              StateStore.get,
              Dict.lookup-insert (s.uuids s.drawn) id r s.store
                  ∙ if_neg (text_dec (s.uuids s.drawn) id) h _ _,
            )
            refl
