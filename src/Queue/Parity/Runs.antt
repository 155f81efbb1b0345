-- ===== src/Queue/Parity/Runs.antt =====
-- The two queues as one another's substitutes: any sequence of calls is answered alike.
use tlo.Prelude.{
  sym, ◌∙◌, String, ℕ, ◌≡◌, refl, ap, Option, none, some, List, [], ◌∷◌, All, arith, OnSome,
}
use mathlib.Core.Option
use tlo.Prelude.Dict
use tlo.Errors.{Result, ok, raise}
use tlo.Task.{Values, QueuedTask, Eta, normalise_eta}
use tlo.Queue.Order.{list_remove}
use tlo.Queue.Simple.{sort_tasks, SimpleInMemoryQueue, pop_named, delete_by_id, change_by_id}
use tlo.Queue.Simple
use tlo.Queue.Simple.Next.{answer, dequeue-split_first, dequeue_any_unsafe-pop_named}
use tlo.Queue.Map.{MapQueue, update_loop}
use tlo.Queue.Map
use tlo.Queue.Started.{IsStarted}
use tlo.Queue.ById.{IsAbsent, IsUnique}
use tlo.Queue.Unique.{
  sort_by-IsUnique, snoc-IsUnique, split_first-IsUnique, pop_named-IsUnique, delete_by_id-IsUnique,
  change_by_id-IsUnique, put-IsDistinct, touch-IsDistinct, update_loop-IsDistinct, OnOk,
}
use tlo.Queue.Parity.{Agrees}
use tlo.Queue.Parity.Peeks.{bulk_peek-Agrees}
use tlo.Queue.Parity.Steps.{enqueue-Agrees, dequeue-Agrees, peek-Agrees, dequeue_any_unsafe-Agrees}
use tlo.Queue.Parity.Updates.{remove-Agrees, reschedule-Agrees}

-- A call of the protocol, with the time that it reads from the clock.
pub data Call (V : Values) : Type 0 where
  enqueues : QueuedTask V → Call V
  dequeues peeks : Option String → ℕ → Call V
  dequeues_any : Option String → Call V
  bulk_peeks : Option String → Option ℕ → ℕ → Call V
  removes : String → Call V
  reschedules : String → Eta → Call V

pub data Answer (V : Values) : Type 0 where
  done : Answer V
  taken : Result (QueuedTask V) → Answer V
  seen : Result (Option (QueuedTask V)) → Answer V
  listed : List (QueuedTask V) → Answer V
  updated : Result (Unit {0}) → Answer V

module _ {V : Values} where
  unfoldable pub simple_call : Call V → SimpleInMemoryQueue V → SimpleInMemoryQueue V × Answer V
  simple_call (enqueues item) q = (Simple.enqueue item q, done)
  simple_call (dequeues name now) q = let (q', r) = Simple.dequeue name now q in (q', taken r)
  simple_call (peeks name now) q = (q, seen (ok (Simple.peek name now q)))
  simple_call (dequeues_any name) q =
      let (q', r) = Simple.dequeue_any_unsafe name q in (q', taken r)
  simple_call (bulk_peeks name limit now) q = (q, listed (Simple.bulk_peek name limit now q))
  simple_call (removes id) q = let (q', r) = Simple.remove id q in (q', updated r)
  simple_call (reschedules id eta) q = let (q', r) = Simple.reschedule id eta q in (q', updated r)

  unfoldable pub map_call : Call V → MapQueue V → MapQueue V × Answer V
  map_call (enqueues item) q = (Map.enqueue item q, done)
  map_call (dequeues name now) q = let (q', r) = Map.dequeue name now q in (q', taken r)
  map_call (peeks name now) q = let (q', r) = Map.peek name now q in (q', seen r)
  map_call (dequeues_any name) q = let (q', r) = Map.dequeue_any_unsafe name q in (q', taken r)
  map_call (bulk_peeks name limit now) q =
      let (q', r) = Map.bulk_peek name limit now q in (q', listed r)
  map_call (removes id) q = let (q', r) = Map.remove id q in (q', updated r)
  map_call (reschedules id eta) q = let (q', r) = Map.reschedule id eta q in (q', updated r)

  -- What a caller keeps to: a new id for each task, and a clock past the times of enqueueing.
  abbrev pub IsAllowed : Call V → SimpleInMemoryQueue V → Type 0
  IsAllowed (enqueues item) q = IsAbsent item.id q.tasks
  IsAllowed (dequeues name now) q = All (IsStarted now) q.tasks
  IsAllowed (peeks name now) q = All (IsStarted now) q.tasks
  IsAllowed _ q = Unit

  pub record Related (s : SimpleInMemoryQueue V) (m : MapQueue V) : Type 0 where
    pub agrees : Agrees s m
    pub unique : IsUnique s.tasks
    pub distinct : Dict.IsDistinct m.queues

  -- Two new queues with one default are related.
  pub init-Related : (default : String) → Related (Simple.init default) (Map.init default)
  unfolding Map.deque_of Dict.lookup
  init-Related default = record {
    agrees = record { default = refl; sorted = tt; deques = λ name. refl };
    unique = tt;
    distinct = tt;
  }

  answer-IsUnique :
      (q : SimpleInMemoryQueue V) (o : Option (QueuedTask V × List (QueuedTask V)))
      → IsUnique q.tasks
      → OnSome (λ r. IsUnique r.1) o
      → IsUnique (answer q o).0.tasks
  answer-IsUnique q none u h = u
  answer-IsUnique q (some r) u h = h

  resorted-IsUnique :
      (q : SimpleInMemoryQueue V) (o : Option (List (QueuedTask V)))
      → IsUnique q.tasks
      → OnSome IsUnique o
      → IsUnique (Simple.updated q (Option.map sort_tasks o)).0.tasks
  unfolding Simple.updated
  resorted-IsUnique q none u h = u
  resorted-IsUnique q (some ts) u h = sort_by-IsUnique ts h

  updated-IsDistinct :
      (q : MapQueue V) (r : Result (Dict.Dict (List (QueuedTask V))))
      → Dict.IsDistinct q.queues
      → OnOk list_remove "" Dict.IsDistinct r
      → Dict.IsDistinct (Map.updated q r).0.queues
  unfolding Map.updated
  updated-IsDistinct q (ok m) d h = h
  updated-IsDistinct q (raise e) d h = d

  simple-IsUnique :
      (c : Call V) (s : SimpleInMemoryQueue V)
      → IsAllowed c s
      → IsUnique s.tasks
      → IsUnique (simple_call c s).0.tasks
  unfolding simple_call Simple.enqueue Simple.remove Simple.reschedule
  simple-IsUnique (enqueues item) s a u = sort_by-IsUnique _ (snoc-IsUnique s.tasks item u a)
  simple-IsUnique (dequeues name now) s a u =
      rw dequeue-split_first (answer-IsUnique s _ u (split_first-IsUnique _ s.tasks u))
  simple-IsUnique (peeks name now) s a u = u
  simple-IsUnique (dequeues_any name) s a u =
      rw dequeue_any_unsafe-pop_named (answer-IsUnique s _ u (pop_named-IsUnique _ s.tasks u))
  simple-IsUnique (bulk_peeks name limit now) s a u = u
  simple-IsUnique (removes id) s a u = ground (arith, delete_by_id-IsUnique id s.tasks u)
  simple-IsUnique (reschedules id eta) s a u =
      resorted-IsUnique s _ u (change_by_id-IsUnique (normalise_eta eta) id s.tasks u)

  map-IsDistinct :
      (c : Call V) (m : MapQueue V)
      → Dict.IsDistinct m.queues
      → Dict.IsDistinct (map_call c m).0.queues
  unfolding map_call Map.enqueue Map.dequeue Map.peek Map.dequeue_any_unsafe Map.bulk_peek
      Map.remove Map.reschedule
  map-IsDistinct (enqueues item) m d = put-IsDistinct _ _ m.queues d
  map-IsDistinct (dequeues name now) m d = put-IsDistinct _ _ m.queues d
  map-IsDistinct (peeks name now) m d = put-IsDistinct _ _ m.queues d
  map-IsDistinct (dequeues_any name) m d = put-IsDistinct _ _ m.queues d
  map-IsDistinct (bulk_peeks name limit now) m d = touch-IsDistinct _ m.queues d
  map-IsDistinct (removes id) m d =
      updated-IsDistinct m _ d (update_loop-IsDistinct list_remove id m.queues d)
  map-IsDistinct (reschedules id eta) m d = updated-IsDistinct m _ d (
      update_loop-IsDistinct (λ t ts. ok (sort_tasks (Map.set_eta id (normalise_eta eta) ts))) id
        m.queues d)

  call-Agrees :
      (c : Call V) (s : SimpleInMemoryQueue V) (m : MapQueue V)
      → Related s m
      → IsAllowed c s
      → ((map_call c m).1 ≡ (simple_call c s).1) × Agrees (simple_call c s).0 (map_call c m).0
  unfolding map_call simple_call
  call-Agrees (enqueues item) s m r a = (refl, enqueue-Agrees s m r.agrees item)
  call-Agrees (dequeues name now) s m r a =
      let (e, g) = dequeue-Agrees s m r.agrees name now a in (ap taken e, g)
  call-Agrees (peeks name now) s m r a =
      let (e, g) = peek-Agrees s m r.agrees name now a in (ap seen e, g)
  call-Agrees (dequeues_any name) s m r a =
      let (e, g) = dequeue_any_unsafe-Agrees s m r.agrees name in (ap taken e, g)
  call-Agrees (bulk_peeks name limit now) s m r a =
      let (simple, map, g) = bulk_peek-Agrees s m r.agrees name limit now in
      (ap listed (map ∙ sym simple), g)
  call-Agrees (removes id) s m r a =
      let (e, g) = remove-Agrees s m r.agrees r.unique r.distinct id in (ap updated e, g)
  call-Agrees (reschedules id eta) s m r a =
      let (e, g) = reschedule-Agrees s m r.agrees r.unique r.distinct id eta in (ap updated e, g)

  -- One call.
  pub call-Related :
      (c : Call V) (s : SimpleInMemoryQueue V) (m : MapQueue V)
      → Related s m
      → IsAllowed c s
      → ((map_call c m).1 ≡ (simple_call c s).1) × Related (simple_call c s).0 (map_call c m).0
  call-Related c s m r a =
      let (e, g) = call-Agrees c s m r a in
      (
        e,
        record {
          agrees = g;
          unique = simple-IsUnique c s a r.unique;
          distinct = map-IsDistinct c m r.distinct;
        },
      )

  unfoldable pub simple_run : List (Call V) → SimpleInMemoryQueue V → List (Answer V)
  simple_run [] q = []
  simple_run (c ∷ cs) q = (simple_call c q).1 ∷ simple_run cs (simple_call c q).0

  unfoldable pub map_run : List (Call V) → MapQueue V → List (Answer V)
  map_run [] q = []
  map_run (c ∷ cs) q = (map_call c q).1 ∷ map_run cs (map_call c q).0

  abbrev pub AreAllowed : List (Call V) → SimpleInMemoryQueue V → Type 0
  AreAllowed [] q = Unit
  AreAllowed (c ∷ cs) q = IsAllowed c q × AreAllowed cs (simple_call c q).0

  -- Two queues that are related answer every sequence of allowed calls alike: enqueue, dequeue,
  -- peek, dequeue_any_unsafe, bulk_peek, remove and reschedule. Related are queues with one default
  -- where MapQueue's deque of each name holds SimpleInMemoryQueue's tasks of that name in the order
  -- of its sorted list, where no id stands twice and no name has two deques; a sequence is allowed
  -- if each enqueued task has a new id, and dequeue and peek read a clock that is not before the
  -- time at which any task in the queue was enqueued.
  pub map_run-simple_run :
      (cs : List (Call V)) (s : SimpleInMemoryQueue V) (m : MapQueue V)
      → Related s m
      → AreAllowed cs s
      → map_run cs m ≡ simple_run cs s
  unfolding map_run simple_run
  map_run-simple_run [] s m r a = refl
  map_run-simple_run (c ∷ cs) s m r a =
      let (e, r') = call-Related c s m r a.0 in cc (e, map_run-simple_run cs _ _ r' a.1)
