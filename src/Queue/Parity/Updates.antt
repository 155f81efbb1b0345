-- ===== src/Queue/Parity/Updates.antt =====
-- `remove` and `reschedule`, where no id stands twice.
use tlo.Prelude.{String, ◌≡◌, ◌≢◌, refl, sym, ap, none, some, List, text_dec, ite, ◌∙◌}
use tlo.Prelude.Sort.{sort_by-IsSorted, filter-sort_by, filter-IsSorted, sort_by_of_IsSorted}
use tlo.Prelude.Dict
use tlo.Prelude.Dict.{Dict}
use tlo.Errors.{Result, ok}
use tlo.Task.{Values, QueuedTask, Eta, normalise_eta}
use tlo.Queue.Order.{queue_sort_key, select, list_remove}
use tlo.Queue.Simple.{SimpleInMemoryQueue, sort_tasks}
use tlo.Queue.Simple
use tlo.Queue.Map.{MapQueue, deque_of, find_by_id, set_eta, update_loop, updated}
use tlo.Queue.Map
use tlo.Queue.ById.{
  IsAbsent, IsUnique, find_absent, select-IsAbsent, absent, cut, delete_by_id-Cuts, unchanged,
  changed, change_by_id-Changes, update_loop_absent, update_loop_found,
}
use tlo.Queue.Parity.{Agrees}

module _ {V : Values} (s : SimpleInMemoryQueue V) (m : MapQueue V) (a : Agrees s m)
    (u : IsUnique s.tasks) (d : Dict.IsDistinct m.queues) (id : String) where
  module _ (f : QueuedTask V → List (QueuedTask V) → Result (List (QueuedTask V))) where
    -- The loop over the deques, where the list says which deque has the task.
    Finds : List (QueuedTask V) → Type 0
    Finds after =
        (m' : Dict (List (QueuedTask V))) × (update_loop f id m.queues ≡ ok m')
        × ((j : String) → deque_of j m' ≡ select j after)

    finds :
        (t : QueuedTask V) (after : List (QueuedTask V))
        → find_by_id id (select t.queue_name s.tasks) ≡ some t
        → f t (select t.queue_name s.tasks) ≡ ok (select t.queue_name after)
        → ((j : String)
            → t.queue_name ≢ j
            → (select j after ≡ select j s.tasks) × (find_by_id id (select j s.tasks) ≡ none))
        → Finds after
    unfolding Finds
    finds t after e g others =
        let n = t.queue_name in
        let (m', h, v) =
          update_loop_found f id m.queues n t (select n after) d (rw (a.deques n) e)
            (rw (a.deques n) g) (λ j q. rw (a.deques j) (others j q).1) in
        (
          m',
          h,
          λ j.
              v j
              ∙ elim (text_dec n j)
                  as (λ c. ite c (select n after) (deque_of j m.queues) ≡ select j after) [
                    | yes p ↦ ap (λ k. select k after) p
                    | no p ↦ a.deques j ∙ sym (others j p).0
                  ],
        )

  none_selected : IsAbsent id s.tasks → (j : String) → find_by_id id (select j s.tasks) ≡ none
  none_selected h j = find_absent id (select j s.tasks) (select-IsAbsent j id s.tasks h)

  -- Where the queues agree, no id stands twice and no name has two deques, remove gives the same
  -- answer on both, and they agree behind it.
  pub remove-Agrees :
      ((Map.remove id m).1 ≡ (Simple.remove id s).1)
      × Agrees (Simple.remove id s).0 (Map.remove id m).0
  unfolding Map.remove Simple.remove Finds
  remove-Agrees = elim (delete_by_id-Cuts id s.tasks a.sorted u) [
    | absent h e ↦
        let loop =
          update_loop_absent list_remove id m.queues d (λ j. rw (a.deques j) (none_selected h j)) in
        rw (e, loop) (refl, a)
    | cut t rest e g r others above sorted ↦
        let (m', h, v) = finds list_remove t rest g r others in
        rw (e, h) (refl, record { default = a.default; sorted = sorted; deques = v })
  ]

  select_sort :
      (j : String) (ts : List (QueuedTask V)) → select j (sort_tasks ts) ≡ sort_tasks (select j ts)
  select_sort j ts = filter-sort_by queue_sort_key (λ t. text_dec t.queue_name j) ts

  select_sorted : (j : String) → sort_tasks (select j s.tasks) ≡ select j s.tasks
  select_sorted j =
      sort_by_of_IsSorted queue_sort_key (select j s.tasks)
        (filter-IsSorted queue_sort_key (λ t. text_dec t.queue_name j) s.tasks a.sorted)

  abbrev rescheduled : Eta → QueuedTask V → List (QueuedTask V) → Result (List (QueuedTask V))
  rescheduled eta t ts = ok (sort_tasks (set_eta id (normalise_eta eta) ts))

  -- Where the queues agree, no id stands twice and no name has two deques, reschedule gives the
  -- same answer on both, and they agree behind it.
  pub reschedule-Agrees :
      (eta : Eta)
      → ((Map.reschedule id eta m).1 ≡ (Simple.reschedule id eta s).1)
        × Agrees (Simple.reschedule id eta s).0 (Map.reschedule id eta m).0
  unfolding Map.reschedule Simple.reschedule Finds
  reschedule-Agrees eta = elim (change_by_id-Changes id (normalise_eta eta) s.tasks u) [
    | unchanged h e ↦
        let loop =
          update_loop_absent (rescheduled eta) id m.queues d
            (λ j. rw (a.deques j) (none_selected h j)) in
        rw (e, loop) (refl, a)
    | changed t rest e g r others ↦
        let (m', h, v) =
          finds (rescheduled eta) t (sort_tasks rest) g (rw (r, select_sort t.queue_name rest))
            (λ j q. (
              select_sort j rest ∙ ap sort_tasks (others j q).0 ∙ select_sorted j,
              (others j q).1,
            )) in
        rw (e, h)
          (
            refl,
            record {
              default = a.default;
              sorted = sort_by-IsSorted queue_sort_key rest;
              deques = v;
            },
          )
  ]
