-- ===== src/Worker/Processor/Balance.antt =====
-- The metrics of a processor, over all interleavings of jobs that BullMQ can make. It reports the
-- end of a job after the wrapped processor returned or threw, once or, if the job's lock was lost,
-- not at all; and it reports jobs that stalled too often as failed, when a check finds them.
use mern_auth.Prelude.{ℕ, suc, ◌+◌, ◌≡◌, refl, Option, String, arith}
use mern_auth.Worker.Processor.{
  Processor, ActiveJob, WorkerConfig, begin_job, end_job, abort_job, on_failed, on_completed,
  new_processor,
}

-- A processor with BullMQ's view of it: the jobs that run, those that returned or threw and are not
-- reported yet, the ends that were never reported, and the reports of stalled jobs.
pub record System (A : Type 0) : Type 0 where
  pub processor : Processor A
  pub running : ℕ
  pub succeeded : ℕ
  pub thrown : ℕ
  pub lost : ℕ
  pub stalled : ℕ

module _ {A : Type 0} where
  pub data Step : System A → System A → Type 0 where
    begin :
        {y : System A}
        → Step y (record y { processor = begin_job y.processor; running = suc y.running })
    succeed :
        {y : System A} {r : ℕ} (time now : ℕ)
        → y.running ≡ suc r
        → Step y (record y {
          processor = end_job time now y.processor;
          running = r;
          succeeded = suc y.succeeded;
        })
    throw :
        {y : System A} {r : ℕ}
        → y.running ≡ suc r
        → Step y
            (record y { processor = abort_job y.processor; running = r; thrown = suc y.thrown })
    complete :
        {y : System A} {n : ℕ}
        → y.succeeded ≡ suc n
        → Step y (record y { processor = on_completed y.processor; succeeded = n })
    fail :
        {y : System A} {n : ℕ} (job : Option (ActiveJob A))
        → y.thrown ≡ suc n
        → Step y (record y { processor = on_failed job y.processor; thrown = n })
    lose_success :
        {y : System A} {n : ℕ}
        → y.succeeded ≡ suc n
        → Step y (record y { succeeded = n; lost = suc y.lost })
    lose_failure :
        {y : System A} {n : ℕ}
        → y.thrown ≡ suc n
        → Step y (record y { thrown = n; lost = suc y.lost })
    stall :
        {y : System A} (job : Option (ActiveJob A))
        → Step y (record y { processor = on_failed job y.processor; stalled = suc y.stalled })

  abbrev pub initial : Option WorkerConfig → Option String → System A
  initial config name = record {
    processor = new_processor config name;
    running = 0;
    succeeded = 0;
    thrown = 0;
    lost = 0;
    stalled = 0;
  }

  -- The systems that a new processor can get to.
  pub data Reachable : System A → Type 0 where
    start : (config : Option WorkerConfig) (name : Option String) → Reachable (initial config name)
    after : {s t : System A} → Reachable s → Step s t → Reachable t

  pub record IsBalanced (s : System A) : Type 0 where
    pub active : s.processor.metrics.active ≡ s.running
    pub processed :
        s.processor.metrics.processed + s.stalled
        ≡ s.running + s.succeeded + s.thrown + s.lost + s.processor.metrics.completed
          + s.processor.metrics.failed

  step-IsBalanced : {s t : System A} → Step s t → IsBalanced s → IsBalanced t
  unfolding begin_job end_job abort_job on_failed on_completed
  step-IsBalanced begin b = record {
    active = omega (arith, b.active);
    processed = omega (arith, b.processed);
  }
  step-IsBalanced (succeed time now h) b = record {
    active = omega (arith, b.active, h);
    processed = omega (arith, b.processed, h);
  }
  step-IsBalanced (throw h) b = record {
    active = omega (arith, b.active, h);
    processed = omega (arith, b.processed, h);
  }
  step-IsBalanced (complete h) b = record {
    active = b.active;
    processed = omega (arith, b.processed, h);
  }
  step-IsBalanced (fail job h) b = record {
    active = b.active;
    processed = omega (arith, b.processed, h);
  }
  step-IsBalanced (lose_success h) b = record {
    active = b.active;
    processed = omega (arith, b.processed, h);
  }
  step-IsBalanced (lose_failure h) b = record {
    active = b.active;
    processed = omega (arith, b.processed, h);
  }
  step-IsBalanced (stall job) b = record {
    active = b.active;
    processed = omega (arith, b.processed);
  }

  -- In every system that a new processor can get to, also by stalled jobs that BullMQ reports as
  -- failed and by ends that it never reports, the metric active is the number of running jobs, and
  -- the metric processed, with the reports of stalled jobs added, is the number of jobs that run,
  -- ended and are not reported yet or never, completed or failed.
  pub Reachable-IsBalanced : (s : System A) → Reachable s → IsBalanced s
  unfolding new_processor
  Reachable-IsBalanced _ (start config name) = record { active = refl; processed = refl }
  Reachable-IsBalanced _ (after r step) = step-IsBalanced step (Reachable-IsBalanced _ r)
