-- ===== src/StateStore/Refinement.antt =====
-- The store against its specification: a partial function from ids to records.
use tlo.Prelude.{String, ◌≡◌, Option, none, some, text_dec, ite, arith, Option-cases, inl, inr}
use mathlib.Core.Path.{fun_ext}
use tlo.Prelude.Dict
use tlo.Errors.{
  Result, ok, raise, Exception, tlo_error, config_error, task_state_does_not_exist_error,
}
use tlo.Task.{Values, TaskStateRecord}
use tlo.StateStore.{InMemoryTaskStateStore, create, update, get, delete}

pub data Call (V : Values) : Type 0 where
  creates updates : TaskStateRecord V → Call V
  gets deletes : String → Call V

pub data Answer (V : Values) : Type 0 where
  done : Answer V
  record_of : TaskStateRecord V → Answer V
  failed : Exception → Answer V

abbrev pub Records : Values → Type 0
Records V = String → Option (TaskStateRecord V)

module _ {V : Values} where
  abbrev pub view : InMemoryTaskStateStore V → Records V
  view store id = Dict.lookup id store

  abbrev unit_answer : Result (Unit {0}) → Answer V
  unit_answer (ok _) = done
  unit_answer (raise e) = failed e

  abbrev record_answer : Result (TaskStateRecord V) → Answer V
  record_answer (ok r) = record_of r
  record_answer (raise e) = failed e

  pub call : Call V → InMemoryTaskStateStore V → InMemoryTaskStateStore V × Answer V
  call (creates r) store = let (after, a) = create r store in (after, unit_answer a)
  call (updates r) store = let (after, a) = update r store in (after, unit_answer a)
  call (gets id) store = (store, record_answer (get id store))
  call (deletes id) store = let (after, a) = delete id store in (after, unit_answer a)

  abbrev pub assign : String → Option (TaskStateRecord V) → Records V → Records V
  assign id r m j = ite (text_dec id j) r (m j)

  abbrev pub missing : Answer V
  missing = failed (tlo_error task_state_does_not_exist_error)

  pub spec : Call V → Records V → Records V × Answer V
  spec (creates r) m = elim (m r.id) [
    | some _ ↦ (m, failed (tlo_error config_error))
    | none ↦ (assign r.id (some r) m, done)
  ]
  spec (updates r) m = elim (m r.id) [
    | some _ ↦ (assign r.id (some r) m, done)
    | none ↦ (m, missing)
  ]
  spec (gets id) m = elim (m id) [ some r ↦ (m, record_of r) | none ↦ (m, missing) ]
  spec (deletes id) m = elim (m id) [ some _ ↦ (assign id none m, done) | none ↦ (m, missing) ]

  -- The store refines a partial function from ids to records: on a dict with distinct keys each
  -- call of create, update, get and delete gives the answer, errors included, and leaves the
  -- function that the specification gives, and the keys stay distinct.
  pub call-spec :
      (c : Call V) (store : InMemoryTaskStateStore V)
      → Dict.IsDistinct store
      → ((call c store).1 ≡ (spec c (view store)).1)
        × (view (call c store).0 ≡ (spec c (view store)).0)
        × Dict.IsDistinct (call c store).0
  unfolding call spec create update get delete
  call-spec (creates r) store d = elim (Option-cases (Dict.lookup r.id store)) [
    | inl e ↦ (
      ground arith,
      fun_ext (λ j. ground (arith, Dict.lookup-insert r.id j r store)),
      ground (arith, Dict.insert-IsDistinct r.id r store d),
    )
    | inr (o, e) ↦ (ground arith, fun_ext (λ j. ground arith), ground arith)
  ]
  call-spec (updates r) store d = elim (Option-cases (Dict.lookup r.id store)) [
    | inl e ↦ (ground arith, fun_ext (λ j. ground arith), ground arith)
    | inr (o, e) ↦ (
      ground arith,
      fun_ext (λ j. ground (arith, Dict.lookup-insert r.id j r store)),
      ground (arith, Dict.insert-IsDistinct r.id r store d),
    )
  ]
  call-spec (gets id) store d = (ground arith, fun_ext (λ j. ground arith), d)
  call-spec (deletes id) store d = elim (Option-cases (Dict.lookup id store)) [
    | inl e ↦ (ground arith, fun_ext (λ j. ground arith), ground arith)
    | inr (o, e) ↦ (
      ground arith,
      fun_ext (λ j. ground (arith, Dict.lookup-delete id j store d)),
      ground (arith, Dict.delete-IsDistinct id store d),
    )
  ]
