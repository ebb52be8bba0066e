-- ===== src/Worker/Service.antt =====
-- WorkerService, apps/worker/src/worker.service.ts: starting, draining and stopping the queue
-- processors. The processors are used through their contract; the clock, and what happens while
-- the service sleeps, are parameters. Logging, Sentry and the signals are left out.
pub mod Start
pub mod Stop
use mern_auth.Prelude.{
  ℕ, zero, suc, ◌+◌, ◌-◌, Bool, true, false, ◌&&◌, Option, none, some, List, [], ◌∷◌, map, String,
  ltb, ◌==◌, every, if◌then◌else◌,
}
use mern_auth.Exec.{Exec, Outcome, pure, throw, try_catch, ◌>>=◌, ◌>>◌}
use mern_auth.Worker.Processor.{Health, Metrics}

-- IQueueProcessor
pub record QueueProcessor (S : Type 0) : Type 0 where
  pub queue_name : String
  pub initialize : Exec S (Unit {0})
  pub pause : Exec S (Unit {0})
  pub resume : Exec S (Unit {0})
  pub close : Exec S (Unit {0})
  pub get_health : Exec S Health
  pub get_metrics : S → Metrics

-- The part of IDatabaseService that the worker uses.
pub record DatabaseService (S : Type 0) : Type 0 where
  pub connect : Exec S (Unit {0})
  pub disconnect : Exec S (Unit {0})

-- Date.now, and a timer; the jobs run on while the service sleeps.
pub record Clock (S : Type 0) : Type 0 where
  pub now : S → ℕ
  pub sleep : ℕ → S → S

pub record WorkerService (S : Type 0) : Type 0 where
  pub processors : List (QueueProcessor S)
  pub database_service : Option (DatabaseService S)
  pub init_services : List (Exec S (Unit {0}))

pub record WorkerHealth : Type 0 where
  pub healthy : Bool
  pub processors : List Health
  pub database : Option Bool

module _ {S : Type 0} where
  -- for (const x of xs) { await act(x); }
  abbrev pub each : {A : Type 0} → (A → Exec S (Unit {0})) → List A → Exec S (Unit {0})
  each act [] = pure tt
  each act (x ∷ xs) = do act x; each act xs

  abbrev pub connect_database : Option (DatabaseService S) → Exec S (Unit {0})
  connect_database none = pure tt
  connect_database (some database) = database.connect

  abbrev pub disconnect_database : Option (DatabaseService S) → Exec S (Unit {0})
  disconnect_database none = pure tt
  disconnect_database (some database) = database.disconnect

  -- The error is logged and thrown again.
  unfoldable pub start : WorkerService S → Exec S (Unit {0})
  start w =
      try_catch
        (do
          connect_database w.database_service
          each (λ init. init) w.init_services
          each (λ p. p.initialize) w.processors)
        (λ e. throw e)

  abbrev pub healths : List (QueueProcessor S) → Exec S (List Health)
  healths [] = pure []
  healths (p ∷ ps) = do h ← p.get_health; hs ← healths ps; pure (h ∷ hs)

  abbrev pub database_health : Option (DatabaseService S) → Option Bool
  database_health none = none
  database_health (some database) = some true

  unfoldable pub get_health : WorkerService S → Exec S WorkerHealth
  get_health w = do
    hs ← healths w.processors
    pure (record {
      healthy = every (λ h. h.healthy) hs;
      processors = hs;
      database = database_health w.database_service;
    })

  unfoldable pub get_metrics : WorkerService S → S → List (String × Metrics)
  get_metrics w s = map (λ p. (p.queue_name, p.get_metrics s)) w.processors

  unfoldable pub drain : WorkerService S → Exec S (Unit {0})
  drain w = each (λ p. p.pause) w.processors

  unfoldable pub resume : WorkerService S → Exec S (Unit {0})
  resume w = each (λ p. p.resume) w.processors

  unfoldable pub active_jobs : List (QueueProcessor S) → S → ℕ
  active_jobs [] s = 0
  active_jobs (p ∷ ps) s = (p.get_metrics s).active + active_jobs ps s

  -- What stop does once it has waited.
  unfoldable pub shut_down : WorkerService S → Exec S (Unit {0})
  shut_down w = do each (λ p. p.close) w.processors; disconnect_database w.database_service

module _ {S : Type 0} (clock : Clock S) (w : WorkerService S) where
  -- The loop of waitForJobs; none if the fuel runs out.
  unfoldable pub wait_for_jobs : ℕ → ℕ → ℕ → S → Option (Bool × S)
  wait_for_jobs zero start_time timeout s = none
  wait_for_jobs (suc fuel) start_time timeout s =
      let rest = wait_for_jobs fuel start_time timeout (clock.sleep 500 s) in
      if ltb (clock.now s - start_time) timeout
      then (if active_jobs w.processors s == 0 then some (true, s) else rest)
      else some (false, s)

  abbrev pub then_shut_down : Option (Bool × S) → Option (Outcome S (Unit {0}))
  then_shut_down none = none
  then_shut_down (some (idle, s)) = some (shut_down w s)

  -- Whether the wait timed out is not looked at.
  unfoldable pub stop : ℕ → ℕ → S → Option (Outcome S (Unit {0}))
  stop fuel timeout s = then_shut_down (wait_for_jobs fuel (clock.now s) timeout s)
