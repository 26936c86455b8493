-- ===== src/Gateway/CronHandler/Soundness.antt =====
-- What requests make of the scheduler.
use mylobsterpp.Prelude.{
  ℕ, inl, inr, Bool, Bool-cases, ◌||◌, Option, Option-cases, none, some, List, [], ◌∷◌, Text, Json,
}
use mylobsterpp.Cron.Scheduler.Invariant.{
  IsSound, Reach, Reach-IsSound, Step-IsSound, scheduled, cancelled, run_begun,
}
use mylobsterpp.Gateway.Params.{is_empty}
use mylobsterpp.Gateway.Hooks.{HookRegistry, SortHooks}
use mylobsterpp.Gateway.Protocol.{Protocol}
use mylobsterpp.Gateway.Protocol.Builtins.{register_builtins}
use mylobsterpp.Gateway.Connection.{Wire, Connection, read_loop}
use mylobsterpp.Gateway.Connection.World.{
  HandlerKeeps, Keeps, register_method-Keeps, register_builtins-Keeps, read_loop-Inv,
}
use mylobsterpp.Gateway.CronHandler.{
  CronWorld, cron_list, created, create_as, create_named, create_options, cron_create, with_name,
  deleted, cron_delete, cron_enable, triggered, cron_trigger, cron_status, register_cron_handlers,
}

-- The scheduler of the world is sound.
abbrev IsSoundWorld : CronWorld → Type 0
IsSoundWorld w = IsSound w.scheduler

module _ (placeholder : (name : Text) → (session_key : Option Text) → ℕ) where
  create_as-IsSound :
      (w : CronWorld) (name expression : Text) (options : Option (Bool × Option Text))
      → IsSound w.scheduler
      → IsSound (create_as placeholder w name expression options).0.scheduler
  unfolding created
  create_as-IsSound w name expression none h = h
  create_as-IsSound w name expression (some (once, key)) h =
      Step-IsSound (scheduled name expression (some (placeholder name key)) once) h

  cron_create-Keeps : HandlerKeeps IsSoundWorld (cron_create placeholder)
  unfolding cron_create
  cron_create-Keeps w params h = elim (Option-cases (create_named placeholder params)) [
    | inl e ↦ rw (e, cron_create) h
    | inr (n, e) ↦ elim (Bool-cases (is_empty n.0 || is_empty n.1)) [
      | inl empty ↦ rw (e, cron_create, empty) h
      | inr full ↦
          rw (e, cron_create, full)
            (create_as-IsSound w n.0 n.1 (create_options placeholder params) h)
    ]
  ]

with_name-IsSound :
    (run : CronWorld → Text → CronWorld × Option Json)
    → ((w : CronWorld) (name : Text) → IsSound w.scheduler → IsSound (run w name).0.scheduler)
    → (w : CronWorld) (name : Option Text) → IsSound w.scheduler
    → IsSound (with_name run w name).0.scheduler
unfolding with_name
with_name-IsSound run keeps w none h = h
with_name-IsSound run keeps w (some []) h = h
with_name-IsSound run keeps w (some (c ∷ name)) h = keeps w (c ∷ name) h

deleted-IsSound :
    (w : CronWorld) (name : Text) → IsSound w.scheduler → IsSound (deleted w name).0.scheduler
unfolding deleted
deleted-IsSound w name h = Step-IsSound (cancelled name) h

triggered-IsSound :
    (w : CronWorld) (name : Text) → IsSound w.scheduler → IsSound (triggered w name).0.scheduler
unfolding triggered
triggered-IsSound w name h = Step-IsSound (run_begun name w.now) h

register_cron_handlers-Keeps :
    (placeholder : (name : Text) → (session_key : Option Text) → ℕ) (p : Protocol CronWorld)
    → Keeps IsSoundWorld p
    → Keeps IsSoundWorld (register_cron_handlers placeholder p)
unfolding register_cron_handlers cron_list cron_delete cron_enable cron_trigger cron_status
register_cron_handlers-Keeps placeholder p h =
    register_method-Keeps IsSoundWorld _ _ _ _ _ (λ w params h. h)
      (register_method-Keeps IsSoundWorld _ _ _ _ _
        (λ w params. with_name-IsSound triggered triggered-IsSound w _)
        (register_method-Keeps IsSoundWorld _ _ _ _ _ (λ w params h. h)
          (register_method-Keeps IsSoundWorld _ _ _ _ _ (λ w params h. h)
            (register_method-Keeps IsSoundWorld _ _ _ _ _
              (λ w params. with_name-IsSound deleted deleted-IsSound w _)
              (register_method-Keeps IsSoundWorld _ _ _ _ _ (cron_create-Keeps placeholder)
                (register_method-Keeps IsSoundWorld _ _ _ _ _ (λ w params h. h) h))))))

-- Whatever messages a client sends to a gateway with the built-in stubs and the handlers of the
-- scheduler, the scheduler keeps unique keys, safe names and valid expressions, if it was reached by its
-- operations before.
pub read_loop-IsSound :
    (placeholder : (name : Text) → (session_key : Option Text) → ℕ) (wire : Wire) (sort : SortHooks)
    (hooks : HookRegistry) (parse : Text → Option Json) (messages : List (Text × Bool))
    (w : CronWorld) (c : Connection)
    → Reach w.scheduler
    → let gateway =
        register_cron_handlers placeholder (register_builtins (record { entries = [] })) in
      IsSound (read_loop wire sort hooks gateway parse (w, c) messages).0.scheduler
read_loop-IsSound placeholder wire sort hooks parse messages w c r =
    read_loop-Inv IsSoundWorld wire sort hooks _
      (register_cron_handlers-Keeps placeholder _
        (register_builtins-Keeps IsSoundWorld (record { entries = [] }) (record { handlers = tt })))
      parse messages w c (Reach-IsSound r)
