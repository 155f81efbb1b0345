-- ===== src/StateStore.antt =====
-- task_state_store/state_store.py: the records of the tasks, by their ids.
pub mod Refinement
use tlo.Prelude.{
  ◌≡◌, refl, String, Option, none, some, [], ite, sym, ap, ◌∙◌, text_dec, if_pos, if_neg,
}
use tlo.Prelude.Dict
use tlo.Prelude.Dict.{Dict}
use tlo.Errors.{Result, ok, raise, Action, tlo_error, config_error, task_state_does_not_exist_error}
use tlo.Task.{Values, TaskStateRecord}

abbrev pub InMemoryTaskStateStore : Values → Type 0
InMemoryTaskStateStore V = Dict (TaskStateRecord V)

module _ {V : Values} where
  abbrev pub init : InMemoryTaskStateStore V
  init = []

  unfoldable pub create : TaskStateRecord V → Action (InMemoryTaskStateStore V) (Unit {0})
  create r store = elim (Dict.lookup r.id store) [
    | some _ ↦ (store, raise (tlo_error config_error))
    | none ↦ (Dict.insert r.id r store, ok tt)
  ]

  unfoldable pub update : TaskStateRecord V → Action (InMemoryTaskStateStore V) (Unit {0})
  update r store = elim (Dict.lookup r.id store) [
    | some _ ↦ (Dict.insert r.id r store, ok tt)
    | none ↦ (store, raise (tlo_error task_state_does_not_exist_error))
  ]

  unfoldable pub get : String → InMemoryTaskStateStore V → Result (TaskStateRecord V)
  get id store = elim (Dict.lookup id store) [
    | some r ↦ ok r
    | none ↦ raise (tlo_error task_state_does_not_exist_error)
  ]

  unfoldable pub delete : String → Action (InMemoryTaskStateStore V) (Unit {0})
  delete id store = elim (Dict.lookup id store) [
    | some _ ↦ (Dict.delete id store, ok tt)
    | none ↦ (store, raise (tlo_error task_state_does_not_exist_error))
  ]

module _ {V : Values} (r : TaskStateRecord V) (store : InMemoryTaskStateStore V) where
  pub create_new :
      Dict.lookup r.id store ≡ none → create r store ≡ (Dict.insert r.id r store, ok tt)
  unfolding create
  create_new e = rw (e, create)

  pub create_taken :
      {old : TaskStateRecord V}
      → Dict.lookup r.id store ≡ some old
      → create r store ≡ (store, raise (tlo_error config_error))
  unfolding create
  create_taken e = rw (e, create)

  pub update_stored :
      {old : TaskStateRecord V}
      → Dict.lookup r.id store ≡ some old
      → update r store ≡ (Dict.insert r.id r store, ok tt)
  unfolding update
  update_stored e = rw (e, update)

pub get_stored :
    {V : Values} (id : String) (store : InMemoryTaskStateStore V) {r : TaskStateRecord V}
    → Dict.lookup id store ≡ some r
    → get id store ≡ ok r
unfolding get
get_stored id store e = rw (e, get)

-- Each record stands under its own id.
abbrev pub IsKeyed : {V : Values} → InMemoryTaskStateStore V → Type 0
IsKeyed {V} store =
    (id : String) (r : TaskStateRecord V) → Dict.lookup id store ≡ some r → r.id ≡ id

module _ {V : Values} (r : TaskStateRecord V) (store : InMemoryTaskStateStore V) where
  -- Storing a record under its id keeps the ids that are stored, and the records under their ids.
  pub insert-stored :
      (id : String)
      → (o : TaskStateRecord V) × (Dict.lookup id store ≡ some o)
      → (o : TaskStateRecord V) × (Dict.lookup id (Dict.insert r.id r store) ≡ some o)
  insert-stored id (o, l) = elim (text_dec r.id id) [
    | yes p ↦ (r, Dict.lookup-insert r.id id r store ∙ if_pos (text_dec r.id id) p _ _)
    | no p ↦ (o, Dict.lookup-insert r.id id r store ∙ if_neg (text_dec r.id id) p _ _ ∙ l)
  ]

  pub insert_same : (o : TaskStateRecord V) × (Dict.lookup r.id (Dict.insert r.id r store) ≡ some o)
  insert_same = (r, Dict.lookup-insert r.id r.id r store ∙ if_pos (text_dec r.id r.id) refl _ _)

  pub insert-IsKeyed : IsKeyed store → IsKeyed (Dict.insert r.id r store)
  insert-IsKeyed k id o l = elim (text_dec r.id id) [
    | yes p ↦
        let q = sym (Dict.lookup-insert r.id id r store ∙ if_pos (text_dec r.id id) p _ _) ∙ l in
        sym (ap (λ x. elim x [ some u ↦ u.id | none ↦ id ]) q) ∙ p
    | no p ↦
        k id o
          (sym (if_neg (text_dec r.id id) p _ _) ∙ sym (Dict.lookup-insert r.id id r store) ∙ l)
  ]
