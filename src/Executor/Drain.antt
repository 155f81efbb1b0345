-- ===== src/Executor/Drain.antt =====
-- One task in the loop that drains the queues, where the tasks' functions leave the objects of the
-- system as they are.
pub mod Sweeps
pub mod Waits
pub mod Ends
use tlo.Prelude.{
  String, ℕ, suc, ◌≤◌, ◌≡◌, refl, Bool, true, false, ◌⊎◌, inl, inr, Option, none, some, All, ite,
  text_dec, if_pos, if_neg, ap, ◌∙◌, subst, arith, sym,
}
use tlo.Prelude.Dict
use tlo.Errors.{Result, ok, raise, Result-cases}
use tlo.Task.{Values, QueuedTask, TaskStateRecord, succeeded, failed}
use tlo.StateStore
use tlo.Locking.{InMemoryLocker, is_locked, acquire, release}
use tlo.Locking.Mutex.{acquire_lem, is_locked-release}
use tlo.System.{QueueProtocol, System}
use tlo.Registry.{get_task}
use tlo.Executor.{Calls, or_else, execute, execute_task, run_function, with_key}
use tlo.Executor.Execute.{
  settled, running_system, started, execute_task_returns, execute_task_raises, execute-with_key,
  execute_took, locked_system, released,
}

or_else-some : (o : Option ℕ) (t : ℕ) → (a : ℕ) × (or_else o t ≡ some a)
or_else-some none t = (t, refl)
or_else-some (some a) t = (a, refl)

module _ {V : Values} where
  -- A record of a task that has run: its times, a result, and how it ended.
  abbrev pub IsRunRecord : TaskStateRecord V → Type 0
  IsRunRecord r =
      (a f : ℕ) × (x : V.Any) × (r.started_at ≡ some a)
      × (r.finished_at ≡ some f)
      × (r.result ≡ some x)
      × ((r.status ≡ succeeded) ⊎ (r.status ≡ failed))

-- A key, if there is one, is free.
abbrev pub IsFree : InMemoryLocker → Option String → Type 0
IsFree l none = Unit
IsFree l (some key) = is_locked key l ≡ false

-- What a task's function must leave as it is: the records, the queue, the locker, whether the
-- executor runs, the settings, and the clock but for reading it.
pub record Leaves {V : Values} {P : QueueProtocol V} (s u : System P) : Type 0 where
  pub same_store : u.store ≡ s.store
  pub same_queue : u.queue ≡ s.queue
  pub same_locker : u.locker ≡ s.locker
  pub same_running : u.running ≡ s.running
  pub same_times : u.times ≡ s.times
  pub same_settings : u.settings ≡ s.settings
  pub later : s.reads ≤ u.reads

abbrev pub LeavesSystem : {V : Values} {P : QueueProtocol V} → Calls P → Type 0
LeavesSystem {V} {P} calls =
    (f : V.Func) (args : V.Args) (kwargs : V.Kwargs) (s : System P)
    → Leaves s (calls f args kwargs s).0

-- A task has run: its record is at its end, and nothing else has changed but the clock and what the
-- function may change.
pub record Runs {V : Values} {P : QueueProtocol V} (id : String) (s : System P)
    (r : System P × Result (Unit {0})) : Type 0 where
  pub state : System P
  pub ends : r ≡ (state, ok tt)
  pub done : TaskStateRecord V
  pub same_id : done.id ≡ id
  pub is_end : IsRunRecord done
  pub store_is :
      (j : String)
      → Dict.lookup j state.store ≡ ite (text_dec done.id j) (some done) (Dict.lookup j s.store)
  pub same_queue : state.queue ≡ s.queue
  pub same_running : state.running ≡ s.running
  pub same_times : state.times ≡ s.times
  pub same_settings : state.settings ≡ s.settings
  pub later : s.reads ≤ state.reads
  pub still_free :
      (key : String) → is_locked key s.locker ≡ false → is_locked key state.locker ≡ false

module _ {V : Values} {P : QueueProtocol V} (calls : Calls P) (leaves : LeavesSystem calls)
    (task : QueuedTask V) where
  run_function-Leaves : (s : System P) → Leaves s (run_function calls task s).0
  unfolding run_function
  run_function-Leaves s = elim (Result-cases (get_task task.task_name s.tasks)) [
    | inl (d, e) ↦ rw (run_function, e) (leaves d.func task.args task.kwargs s)
    | inr (x, e) ↦
        rw (run_function, e)
          (record {
            same_store = refl;
            same_queue = refl;
            same_locker = refl;
            same_running = refl;
            same_times = refl;
            same_settings = refl;
            later = omega arith;
          })
  ]

module _ {V : Values} {P : QueueProtocol V} (s : System P) (r : TaskStateRecord V) where
  -- The last record stands in place of the one that marked the start.
  settled-Runs :
      (d : TaskStateRecord V) (u : System P) (res : System P × Result (Unit {0}))
      → d.id ≡ r.id
      → IsRunRecord d
      → Leaves (running_system s r) u
      → res ≡ (settled d u, ok tt)
      → Runs r.id s res
  settled-Runs d u res p d_ends l e = record {
    state = settled d u;
    ends = e;
    done = d;
    same_id = p;
    is_end = d_ends;
    store_is = λ j. ground (
      arith,
      Dict.lookup-insert d.id j d u.store,
      Dict.lookup-insert r.id j (started s r) s.store,
      ap (Dict.lookup j) l.same_store,
    );
    same_queue = l.same_queue;
    same_running = l.same_running;
    same_times = l.same_times;
    same_settings = l.same_settings;
    later = omega (arith, l.later);
    still_free = λ key h. rw (l.same_locker) h;
  }

module _ {V : Values} {P : QueueProtocol V} (calls : Calls P) (leaves : LeavesSystem calls)
    (task : QueuedTask V) (s : System P) (r : TaskStateRecord V) where
  execute_task-Runs : Dict.lookup r.id s.store ≡ some r → Runs r.id s (execute_task calls task r s)
  execute_task-Runs e =
      let before = running_system s r in
      let u = (run_function calls task before).0 in
      let l : Leaves before u = run_function-Leaves calls leaves task before in
      let (o, stored) = StateStore.insert_same (started s r) s.store in
      let still = ap (Dict.lookup r.id) l.same_store ∙ stored in
      let (a, start) = or_else-some r.started_at (s.times s.reads) in
      let f = u.times u.reads in
      elim (Result-cases (run_function calls task before).1) [
        | inl (x, k) ↦
            let d : TaskStateRecord V = record (started s r) {
              finished_at = some f;
              status = succeeded;
              result = some x;
            } in
            settled-Runs s r d u _ refl (a, f, x, start, refl, refl, inl refl) l
              (execute_task_returns calls task s r r o u x e (ap (λ y. (u, y)) k) still)
        | inr (x, k) ↦
            let d : TaskStateRecord V = record (started s r) {
              finished_at = some f;
              status = failed;
              result = some (V.str x);
            } in
            settled-Runs s r d u _ refl (a, f, V.str x, start, refl, refl, inr refl) l
              (execute_task_raises calls task s r r o u x e (ap (λ y. (u, y)) k) still)
      ]

module _ {V : Values} {P : QueueProtocol V} (calls : Calls P) (leaves : LeavesSystem calls)
    (task : QueuedTask V) (s : System P) (r : TaskStateRecord V)
    (e : Dict.lookup task.id s.store ≡ some r) (p : r.id ≡ task.id) where
  own_record : Dict.lookup r.id s.store ≡ some r
  own_record = ap (λ j. Dict.lookup j s.store) p ∙ e

  execute_unlocked : task.exclusive_key ≡ none → Runs r.id s (execute calls task s)
  unfolding with_key
  execute_unlocked k =
      subst (Runs r.id s) (sym (execute-with_key calls task s r none e k))
        (execute_task-Runs calls leaves task s r own_record)

  -- A key that was free is free again, and no other is locked.
  still_free_behind :
      (key j : String) (u : System P)
      → ((i : String) → is_locked i (acquire key s.locker).0 ≡ false → is_locked i u.locker ≡ false)
      → is_locked j s.locker ≡ false
      → is_locked j (release key u.locker) ≡ false
  still_free_behind key j u f h = elim (text_dec key j) [
    | yes q ↦ is_locked-release j key u.locker ∙ if_pos (text_dec key j) q _ _
    | no q ↦
        is_locked-release j key u.locker
        ∙ if_neg (text_dec key j) q _ _
        ∙ f j ((acquire_lem j key s.locker).1 ∙ if_neg (text_dec key j) q _ _ ∙ h)
  ]

  execute_alone :
      (key : String)
      → task.exclusive_key ≡ some key
      → is_locked key s.locker ≡ false
      → Runs r.id s (execute calls task s)
  execute_alone key k h =
      let w = execute_task-Runs calls leaves task (locked_system calls task s key) r own_record in
      record {
        state = record (w.state) { locker = release key w.state.locker };
        ends = execute_took calls task s r key e k h ∙ ap (released key) w.ends;
        done = w.done;
        same_id = w.same_id;
        is_end = w.is_end;
        store_is = w.store_is;
        same_queue = w.same_queue;
        same_running = w.same_running;
        same_times = w.same_times;
        same_settings = w.same_settings;
        later = w.later;
        still_free = λ j free. still_free_behind key j w.state w.still_free free;
      }

  -- A task whose key is free is run, and every key that was free is free.
  pub execute-Runs : IsFree s.locker task.exclusive_key → Runs r.id s (execute calls task s)
  execute-Runs = by_key task.exclusive_key refl
    where
      by_key :
          (o : Option String)
          → task.exclusive_key ≡ o
          → IsFree s.locker o
          → Runs r.id s (execute calls task s)
      by_key none k h = execute_unlocked k
      by_key (some key) k h = execute_alone key k h
