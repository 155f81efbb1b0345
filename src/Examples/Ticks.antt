-- ===== src/Examples/Ticks.antt =====
-- A tick over two scheduled tasks, of which one is due.
use tlo.Prelude.{
  String, ℕ, zero, suc, ◌+◌, ◌<◌, ◌≡◌, ◌≢◌, refl, inl, inr, none, some, [], ◌∷◌, All, text_dec,
  text_ne, arith, ap, ◌∙◌, if_neg, List, map,
}
use tlo.Prelude.Dict
use tlo.Errors.{ok}
use tlo.Registry.{TaskDef, render_exclusive_key, rendered}
use tlo.Registry.Schedules.{interval}
use tlo.System.{System}
use tlo.System.Queues.{simple_queue}
use tlo.Scheduler.{tick, new_record, should_run}
use tlo.Task.{QueuedTask}
use tlo.Registry.Schedules.{next_run_after}
use tlo.Scheduler.Due.{HasFreshIds}
use tlo.Scheduler.Ticks.{enqueue_all, tick_lem}
use tlo.Examples.{values, system, report, record_for, mail, late, disk}

marks : ℕ → String
marks zero = ""
marks (suc n) = String.◌∷◌ "x" (marks n)

id_of : ℕ → String
id_of n = String.◌∷◌ "d" (String.◌∷◌ "x" (marks n))

size : String → ℕ
size String.[] = 0
size (String.◌∷◌ c s) = suc (size s)

size-marks : (n : ℕ) → size (marks n) ≡ n
unfolding marks size
size-marks zero = refl
size-marks (suc n) = ap suc (size-marks n)

id_of_differs : (i j : ℕ) → i < j → id_of i ≢ id_of j
unfolding id_of size
id_of_differs i j h = λ p. omega (arith, ap size p, size-marks i, size-marks j, h)

-- It is no text of one character.
id_of_long : (k : String) (i : ℕ) → size k ≡ 1 → k ≢ id_of i
unfolding id_of size
id_of_long k i e = λ p. omega (arith, ap size p, size-marks i, e)

absent :
    {A : Type 0} (k j : String) (v : A) (m : Dict.Dict A)
    → k ≢ j
    → Dict.lookup j m ≡ none
    → Dict.lookup j ((k, v) ∷ m) ≡ none
unfolding Dict.lookup
absent k j v m ne e = if_neg (text_dec k j) ne _ _ ∙ e

-- The report was run at 15 and is due at 120; the backup, which needs no key, ran at 110.
abbrev backup : TaskDef values
backup = record {
  func = "backup";
  name = "backup";
  extra = tt;
  schedule = some (interval 100);
  exclusive_template = none;
}

abbrev two_tasks : System (simple_queue values)
two_tasks = record system {
  tasks = ("report", report) ∷ ("backup", backup) ∷ [];
  last_run = ("report", 15) ∷ ("backup", 110) ∷ [];
  times = λ n. 120 + n;
  uuids = id_of;
}

two_tasks-HasFreshIds : HasFreshIds two_tasks
unfolding size Dict.lookup
two_tasks-HasFreshIds = record {
  new = λ i h.
      absent "a" (id_of i) (record_for mail) (("b", record_for late) ∷ ("c", record_for disk) ∷ [])
        (id_of_long "a" i refl)
        (absent "b" (id_of i) (record_for late) (("c", record_for disk) ∷ [])
          (id_of_long "b" i refl)
          (absent "c" (id_of i) (record_for disk) [] (id_of_long "c" i refl) refl));
  different = λ i j h k. id_of_differs i j k;
}

tick_lem_example :
    (u : System (simple_queue values)) × (tasks : List (QueuedTask values)) × (tick two_tasks
      ≡ (u, ok tt))
    × (map (λ q. q.task_name) tasks ≡ "report" ∷ [])
    × (u.queue ≡ enqueue_all (simple_queue values) tasks two_tasks.queue)
    × All (λ q. Dict.lookup q.id u.store ≡ some (new_record "SimpleScheduler" q)) tasks
    × ((Dict.lookup "report" u.last_run ≡ some 120)
        × ((Dict.lookup "backup" u.last_run ≡ some 110) × Unit {0}))
    × ((name : String)
        → ("report" ≢ name) × (("backup" ≢ name) × Unit {0})
        → Dict.lookup name u.last_run ≡ Dict.lookup name two_tasks.last_run)
unfolding should_run next_run_after render_exclusive_key rendered Dict.lookup text_dec
tick_lem_example =
    tick_lem two_tasks two_tasks-HasFreshIds ((text_ne "backup" "report" refl, tt), (tt, tt))
      (inr (refl, (some "disk", refl)), (inl refl, tt))
