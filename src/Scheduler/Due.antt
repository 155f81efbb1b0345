-- ===== src/Scheduler/Due.antt =====
-- When a task is due, and what a visit to it leaves of what is due under other names.
use tlo.Prelude.{
  String, ℕ, ◌≤◌, ◌<◌, ◌≡◌, ◌≢◌, refl, ◌∙◌, ap, sym, ◌⊎◌, inl, inr, Bool, true, false, Option, none,
  some, Option-cases, text_dec, if_pos, if_neg, arith,
}
use tlo.Prelude.Dict
use tlo.Errors.{Result, ok, raise}
use tlo.Task.{Values, TaskStateRecord}
use tlo.Registry.{TaskDef, render_exclusive_key}
use tlo.Registry.Schedules.{Schedule}
use tlo.System.{QueueProtocol, System}
use tlo.Scheduler.{should_run, visit}
use tlo.Scheduler.Rate.{visit_idle, visit-should_run, visit_due, after_due}

-- Whether a task definition with a last run is due at a time: an unscheduled one is not.
abbrev pub verdict : {V : Values} → Bool → ℕ → TaskDef V → Option ℕ → Result Bool
verdict panic t d last = elim d.schedule [
  | none ↦ ok false
  | some schedule ↦ should_run panic t schedule last
]

abbrev pub passes : Result Bool → Bool
passes (ok b) = b
passes (raise e) = false

module _ {V : Values} {P : QueueProtocol V} where
  abbrev pub verdict_in : System P → ℕ → TaskDef V → Result Bool
  verdict_in s t d = verdict s.settings.panic_mode t d (Dict.lookup d.name s.last_run)

  abbrev pub is_due : System P → ℕ → TaskDef V → Bool
  is_due s t d = passes (verdict_in s t d)

  abbrev verdict_of : System P → ℕ → TaskDef V → Option (Schedule V) → Result Bool
  verdict_of s t d none = ok false
  verdict_of s t d (some schedule) =
      should_run s.settings.panic_mode t schedule (Dict.lookup d.name s.last_run)

  -- A visit that goes well: the task is not due, or it is and its exclusive key renders.
  abbrev pub GoesWell : System P → ℕ → TaskDef V → Type 0
  GoesWell s t d =
      (verdict_in s t d ≡ ok false)
      ⊎ ((verdict_in s t d ≡ ok true)
          × ((key : Option String) × (render_exclusive_key d V.no_args V.no_kwargs ≡ ok key)))

  -- The ids that are drawn from here on are new, and no two of them are the same.
  pub record HasFreshIds (s : System P) : Type 0 where
    pub new : (i : ℕ) → s.drawn ≤ i → Dict.lookup (s.uuids i) s.store ≡ none
    pub different : (i j : ℕ) → s.drawn ≤ i → i < j → s.uuids i ≢ s.uuids j

  -- What a visit does.
  abbrev pub Visit : System P → ℕ → TaskDef V → Type 0
  Visit s t d =
      ((is_due s t d ≡ false) × (visit t d s ≡ (s, ok tt)))
      ⊎ ((is_due s t d ≡ true)
          × ((key : Option String) × (visit t d s ≡ (after_due s d t key, ok tt))))

  pub Visit-cases :
      (s : System P) (t : ℕ) (d : TaskDef V) → HasFreshIds s → GoesWell s t d → Visit s t d
  Visit-cases s t d f g = elim (Option-cases d.schedule) [
    | inl n ↦ elim g [
      | inl e ↦ inl (ap passes e, visit_idle s d t n)
      | inr (e, _) ↦
          let k : ok false ≡ ok true = sym (ap (λ o. verdict_of s t d o) n) ∙ e in absurd (cc k)
    ]
    | inr (schedule, n) ↦
        let same = ap (λ o. verdict_of s t d o) n in
        elim g [
          | inl e ↦ inl (ap passes e, visit-should_run s d t schedule false n (sym same ∙ e))
          | inr (e, (key, k)) ↦ inr (
            ap passes e,
            (key, visit_due s d t schedule key n (sym same ∙ e) k (f.new s.drawn (omega arith))),
          )
        ]
  ]

  module _ (s : System P) (t : ℕ) (d : TaskDef V) (key : Option String) where
    -- A submission leaves what is due under other names as it was.
    pub last_run_after :
        (name : String)
        → name ≢ d.name
        → Dict.lookup name (after_due s d t key).last_run ≡ Dict.lookup name s.last_run
    last_run_after name ne =
        Dict.lookup-insert d.name name t s.last_run
        ∙ if_neg (text_dec d.name name) (λ p. ne (sym p)) _ _

    pub own_last_run : Dict.lookup d.name (after_due s d t key).last_run ≡ some t
    own_last_run =
        Dict.lookup-insert d.name d.name t s.last_run ∙ if_pos (text_dec d.name d.name) refl _ _

    pub verdict_after :
        (e : TaskDef V) → e.name ≢ d.name → verdict_in (after_due s d t key) t e ≡ verdict_in s t e
    verdict_after e ne = ap (λ o. verdict s.settings.panic_mode t e o) (last_run_after e.name ne)

    pub after_due-HasFreshIds : HasFreshIds s → HasFreshIds (after_due s d t key)
    after_due-HasFreshIds f = record {
      new = λ i h.
          Dict.lookup-insert (s.uuids s.drawn) (s.uuids i) _ s.store
          ∙ if_neg (text_dec (s.uuids s.drawn) (s.uuids i))
              (f.different s.drawn i (omega arith) (omega (arith, h))) _ _
          ∙ f.new i (omega (arith, h));
      different = λ i j h k. f.different i j (omega (arith, h)) k;
    }

    pub store_after :
        (id : String) (o : TaskStateRecord V)
        → HasFreshIds s
        → Dict.lookup id s.store ≡ some o
        → Dict.lookup id (after_due s d t key).store ≡ some o
    store_after id o f e =
        Dict.lookup-insert (s.uuids s.drawn) id _ s.store
        ∙ if_neg (text_dec (s.uuids s.drawn) id) fresh _ _
        ∙ e
      where
        fresh : s.uuids s.drawn ≢ id
        fresh = λ p.
            let k : none ≡ some o =
              sym (f.new s.drawn (omega arith)) ∙ ap (λ x. Dict.lookup x s.store) p ∙ e in
            absurd (cc k)
