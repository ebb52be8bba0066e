-- ===== src/Worker/Service/Stop.antt =====
-- How long a stop of the worker waits for the running jobs, and what it does then.
use mathlib.Core.Path.{subst}
use mern_auth.Prelude.{
  ℕ, zero, suc, ◌+◌, ◌-◌, ◌*◌, ◌/◌, ◌<◌, ◌≤◌, ◌≡◌, Bool, true, false, Option, some, ltb, ◌==◌,
  arith, Bool-cases, inl, inr, ltb→lt, ◌∙◌, ap,
}
use mern_auth.Exec.{Outcome}
use mern_auth.Worker.Service.{
  WorkerService, Clock, active_jobs, wait_for_jobs, stop, shut_down, then_shut_down,
}

module _ {S : Type 0} (clock : Clock S) (w : WorkerService S) where
  -- The state after n sleeps of the loop.
  abbrev pub naps : ℕ → S → S
  naps zero s = s
  naps (suc n) s = naps n (clock.sleep 500 s)

  -- Jobs were running before each of the n sleeps, and the time was not up.
  abbrev pub Busy : ℕ → ℕ → ℕ → S → Type 0
  Busy start_time timeout zero s = Unit
  Busy start_time timeout (suc n) s =
      (0 < active_jobs w.processors s)
      × (clock.now s - start_time < timeout)
      × Busy start_time timeout n (clock.sleep 500 s)

  -- Why the loop ends.
  abbrev pub Over : ℕ → ℕ → Bool → S → Type 0
  Over start_time timeout true s = active_jobs w.processors s ≡ 0
  Over start_time timeout false s = timeout ≤ clock.now s - start_time

  -- The loop ends after n sleeps.
  abbrev pub Waited : ℕ → ℕ → S → Option (Bool × S) → Type 0
  Waited start_time timeout s o =
      (n : ℕ) × (idle : Bool) × (o ≡ some (idle, naps n s))
      × Busy start_time timeout n s
      × Over start_time timeout idle (naps n s)

  -- Each sleep takes 500 milliseconds or more of the clock.
  abbrev pub Sleeps : Type 0
  Sleeps = (s : S) → clock.now s + 500 ≤ clock.now (clock.sleep 500 s)

  again :
      (fuel start_time timeout : ℕ) (s : S)
      → ltb (clock.now s - start_time) timeout ≡ true
      → (active_jobs w.processors s == 0) ≡ false
      → wait_for_jobs clock w (suc fuel) start_time timeout s
        ≡ wait_for_jobs clock w fuel start_time timeout (clock.sleep 500 s)
  unfolding wait_for_jobs
  again fuel start_time timeout s early busy = ground arith

  later :
      (fuel start_time timeout : ℕ) (s : S)
      → ltb (clock.now s - start_time) timeout ≡ true
      → (active_jobs w.processors s == 0) ≡ false
      → Waited start_time timeout
          (clock.sleep 500 s)
          (wait_for_jobs clock w fuel start_time timeout (clock.sleep 500 s))
      → Waited start_time timeout s (wait_for_jobs clock w (suc fuel) start_time timeout s)
  later fuel start_time timeout s early busy (n, idle, ended, worked, over) = (
    suc n,
    idle,
    again fuel start_time timeout s early busy ∙ ended,
    (ground arith, ltb→lt (clock.now s - start_time) timeout early, worked),
    over,
  )

  wait_lem :
      Sleeps
      → (fuel start_time timeout : ℕ) (s : S) → start_time ≤ clock.now s
      → timeout ≤ clock.now s - start_time + 500 * fuel
      → Waited start_time timeout s (wait_for_jobs clock w (suc fuel) start_time timeout s)
  unfolding wait_for_jobs
  wait_lem slow zero start_time timeout s began enough = (0, false, ground arith, tt, ground arith)
  wait_lem slow (suc fuel) start_time timeout s began enough =
      elim (Bool-cases (ltb (clock.now s - start_time) timeout)) [
        | inr up ↦ (0, false, ground arith, tt, ground arith)
        | inl early ↦ elim (Bool-cases (active_jobs w.processors s == 0)) [
          | inl idle ↦ (0, true, ground arith, tt, ground arith)
          | inr busy ↦ later (suc fuel) start_time timeout s early busy (
              wait_lem slow fuel start_time timeout (clock.sleep 500 s)
                (omega (arith, slow s, began)) (omega (arith, slow s, began, enough)))
        ]
      ]

  -- A stop ends: it sleeps while jobs run and the time is not up, and shuts the worker down in the
  -- state after the last sleep, in which no job runs or the time is up.
  abbrev pub Stopped : ℕ → S → Option (Outcome S (Unit {0})) → Type 0
  Stopped timeout s o =
      (n : ℕ) × (idle : Bool) × (o ≡ some (shut_down w (naps n s)))
      × Busy (clock.now s) timeout n s
      × Over (clock.now s) timeout idle (naps n s)
      × (500 * n ≤ timeout + 499)

  Busy-short :
      Sleeps
      → (n start_time timeout : ℕ) (s : S) → start_time ≤ clock.now s
      → Busy start_time timeout (suc n) s
      → clock.now s - start_time + 500 * n < timeout
  Busy-short slow zero start_time timeout s began (busy, early, rest) = omega (arith, early)
  Busy-short slow (suc n) start_time timeout s began (busy, early, rest) = omega (
    arith,
    slow s,
    began,
    Busy-short slow n start_time timeout (clock.sleep 500 s) (omega (arith, slow s, began)) rest,
  )

  Busy-bound :
      Sleeps → (n timeout : ℕ) (s : S) → Busy (clock.now s) timeout n s → 500 * n ≤ timeout + 499
  Busy-bound slow zero timeout s h = omega arith
  Busy-bound slow (suc n) timeout s h =
      omega (arith, Busy-short slow n (clock.now s) timeout s (omega arith) h)

  stopped :
      Sleeps
      → (fuel timeout : ℕ) (s : S)
      → Waited (clock.now s) timeout s (wait_for_jobs clock w fuel (clock.now s) timeout s)
      → Stopped timeout s (stop clock w fuel timeout s)
  unfolding stop
  stopped slow fuel timeout s (n, idle, ended, worked, over) =
      (n, idle, ap (then_shut_down clock w) ended, worked, over, Busy-bound slow n timeout s worked)

  enough_fuel : (timeout : ℕ) → suc (timeout / 500 + 1) ≡ timeout / 500 + 2
  enough_fuel timeout = omega arith

  -- If each sleep of 500 ms takes that long on the clock, a stop with a timeout ends, with fuel for
  -- timeout / 500 + 2 rounds: it sleeps n times, where 500 * n is below the timeout and 500 more,
  -- as long as jobs run and the time is not up; then no job runs or the time is up, and the worker
  -- is shut down.
  pub stop-Stopped :
      ((s : S) → clock.now s + 500 ≤ clock.now (clock.sleep 500 s))
      → (timeout : ℕ) (s : S) → Stopped timeout s (stop clock w (timeout / 500 + 2) timeout s)
  stop-Stopped slow timeout s = stopped slow (timeout / 500 + 2) timeout s (
      subst
        (λ fuel.
          Waited (clock.now s) timeout s (wait_for_jobs clock w fuel (clock.now s) timeout s))
        (enough_fuel timeout)
        (wait_lem slow (timeout / 500 + 1) (clock.now s) timeout s (omega arith) (omega arith)))
