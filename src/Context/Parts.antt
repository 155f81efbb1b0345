-- ===== src/Context/Parts.antt =====
-- Tlo.__init__: what the parts of a runtime are built from.
use tlo.Prelude.{◌≡◌, refl, sym, ◌∙◌, ap, String, subst}
use tlo.Prelude.Dict.{Dict}
use tlo.Errors.{Result, ok}
use tlo.Protocols.{
  task_registry_protocol, task_state_store_protocol, queue_protocol, scheduler_protocol,
  executor_protocol, locker_protocol,
}
use tlo.Settings.{Value, Entries}
use tlo.Settings.Coercers.{
  task_registry_enum, task_state_store_enum, queue_enum, scheduler_enum, executor_enum, locker_enum,
}
use tlo.Settings.Tlo.{initialize_settings}
use tlo.Context.{
  Kinds, Tlo, initialize_task_registry, initialize_task_state_store, initialize_queue,
  initialize_locker, initialize_scheduler, initialize_executor, wired, new_tlo,
}
use tlo.Context.Wiring.{ok-injective, and_then-ok, IsPart, initialize_setting-IsPart}

module _ {F M R S Q L C E : Type 0} (import_module : String → Result M)
    (kinds : Kinds F M R S Q L C E) where
  -- Each part is what its setting names, built from the runtime's own settings and parts.
  abbrev pub IsBuilt : Tlo F R S Q L C E → Type 0
  IsBuilt t =
      IsPart import_module kinds.task_registries task_registry_protocol task_registry_enum
        "task_registry" t.settings tt t.task_registry
      × (IsPart import_module kinds.task_state_stores task_state_store_protocol
            task_state_store_enum "task_state_store" t.settings tt t.task_state_store
          × (IsPart import_module kinds.queues queue_protocol queue_enum "queue" t.settings
                t.settings t.queue
              × (IsPart import_module kinds.lockers locker_protocol locker_enum "locker" t.settings
                    tt t.locker
                  × (IsPart import_module kinds.schedulers scheduler_protocol scheduler_enum
                        "scheduler" t.settings
                        (t.task_registry, (t.queue, (t.task_state_store, t.settings))) t.scheduler
                      × IsPart import_module kinds.executors executor_protocol executor_enum
                          "executor" t.settings
                          (
                            t.task_registry,
                            (t.task_state_store, (t.queue, (t.scheduler, (t.locker, t.settings)))),
                          )
                          t.executor))))

  wired-IsBuilt :
      (settings : Value F) (t : Tlo F R S Q L C E)
      → wired import_module kinds settings ≡ ok t
      → (t.settings ≡ settings) × IsBuilt t
  unfolding wired initialize_task_registry initialize_task_state_store initialize_queue
      initialize_locker initialize_scheduler initialize_executor
  wired-IsBuilt settings t h =
      let (r, (p1, h1)) = and_then-ok _ _ t h in
      let (s, (p2, h2)) = and_then-ok _ _ t h1 in
      let (q, (p3, h3)) = and_then-ok _ _ t h2 in
      let (l, (p4, h4)) = and_then-ok _ _ t h3 in
      let (c, (p5, h5)) = and_then-ok _ _ t h4 in
      let (e, (p6, h6)) = and_then-ok _ _ t h5 in
      subst (λ x. (x.settings ≡ settings) × IsBuilt x) (ok-injective h6)
        (
          refl,
          (
            initialize_setting-IsPart import_module _ _ _ _ settings _ r p1,
            (
              initialize_setting-IsPart import_module _ _ _ _ settings _ s p2,
              (
                initialize_setting-IsPart import_module _ _ _ _ settings _ q p3,
                (
                  initialize_setting-IsPart import_module _ _ _ _ settings _ l p4,
                  (
                    initialize_setting-IsPart import_module _ _ _ _ settings _ c p5,
                    initialize_setting-IsPart import_module _ _ _ _ settings _ e p6,
                  ),
                ),
              ),
            ),
          ),
        )

-- If Tlo.__init__ succeeds, initialize_settings gave the settings that the runtime keeps, and each
-- part is what its setting names: for a member of the part's own enum, what the class that is
-- registered under this member gives; for a text, or a member of another enum, what the class at
-- this dotted path gives, an attribute of the imported module, and then it inherits from the part's
-- protocol or has each of its members. The classes of registry, state store and locker are called
-- with nothing, that of the queue with the settings, that of the scheduler with the runtime's own
-- registry, queue, state store and settings, and that of the executor with its registry, state
-- store, queue, scheduler, locker and settings.
pub new_tlo-IsBuilt :
    {F M R S Q L C E : Type 0} (import_module : String → Result M) (kinds : Kinds F M R S Q L C E)
    (to_float : String → Result (Value F)) (one : F) (env : Dict String) (settings : Entries F)
    (t : Tlo F R S Q L C E)
    → new_tlo import_module kinds to_float one env settings ≡ ok t
    → (initialize_settings to_float one env settings ≡ ok t.settings)
      × IsBuilt import_module kinds t
unfolding new_tlo
new_tlo-IsBuilt import_module kinds to_float one env settings t h =
    let (v, (p, k)) = and_then-ok (initialize_settings to_float one env settings) _ t h in
    let (e, w) = wired-IsBuilt import_module kinds v t k in (p ∙ ap ok (sym e), w)
