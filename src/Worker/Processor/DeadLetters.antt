-- ===== src/Worker/Processor/DeadLetters.antt =====
-- Which failed jobs reach the dead-letter queue.
use mern_auth.Prelude.{
  length, ◌+◌, ◌≡◌, some, List, [], ◌∷◌, String, leb, arith, select, length, Bool-cases, inl, inr,
}
use mern_auth.Worker.Processor.{Processor, ActiveJob, WorkerConfig, max_attempts, on_failed}

module _ {A : Type 0} where
  -- The handler of failed, run for each of a list of jobs.
  abbrev pub all_failed : List (ActiveJob A) → Processor A → Processor A
  all_failed [] p = p
  all_failed (job ∷ jobs) p = all_failed jobs (on_failed (some job) p)

  abbrev pub letter : ActiveJob A → String × A
  letter job = (job.name, job.job_data)

  -- The jobs that used up the worker's maximum of attempts.
  abbrev pub exhausted : WorkerConfig → List (ActiveJob A) → List (ActiveJob A)
  exhausted config jobs = select (λ job. leb (max_attempts config) job.attempts_made) jobs

  -- The letters of some jobs, the last one in front, before older ones.
  abbrev pub stack : List (ActiveJob A) → List (String × A) → List (String × A)
  stack [] letters = letters
  stack (job ∷ jobs) letters = stack jobs (letter job ∷ letters)

  -- With a dead-letter queue, after each sequence of failures it has got, in their order, exactly
  -- the jobs whose attempts reached the worker's maximum, the last one in front, and the metric
  -- failed has counted every failure.
  pub all_failed_lem :
      (jobs : List (ActiveJob A)) (p : Processor A) (letters : List (String × A))
      → p.dead_letters ≡ some letters
      → ((all_failed jobs p).dead_letters ≡ some (stack (exhausted p.worker_config jobs) letters))
        × ((all_failed jobs p).metrics.failed ≡ p.metrics.failed + length jobs)
  unfolding on_failed
  all_failed_lem [] p letters h = (h, omega arith)
  all_failed_lem (job ∷ jobs) p letters h =
      elim (Bool-cases (leb (max_attempts p.worker_config) job.attempts_made)) [
        | inl t ↦
            ground (arith, all_failed_lem jobs (on_failed (some job) p) (letter job ∷ letters))
        | inr f ↦ ground (arith, all_failed_lem jobs (on_failed (some job) p) letters)
      ]
