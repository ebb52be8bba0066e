-- ===== src/Queue/Lifecycle/Health.antt =====
-- When a queue is reported healthy.
use mern_auth.Prelude.{ℕ, ◌+◌, ◌-◌, ◌≡◌, refl, String, Bool, Option, none, some}
use mern_auth.Errors.{message}
use mern_auth.Exec.{Exec, Outcome, returned, raised, ◌>>=◌}
use mern_auth.Queue.Lifecycle.{
  BullQueue, QueueMetrics, QueueHealth, healthy_queue, unhealthy_queue, get_health, get_metrics,
  counted, measured,
}

-- A report, healthy with the metrics of the queue or unhealthy; its total is the sum of the counts.
abbrev pub Sums : Option QueueMetrics → Type 0
Sums none = ⊥
Sums (some m) = m.total ≡ m.waiting + m.active + m.completed + m.failed + m.delayed

abbrev pub IsReport : {S : Type 0} → Outcome S QueueHealth → Type 0
IsReport (returned (healthy_queue name latency metrics breaker) s) = Sums metrics
IsReport (returned (unhealthy_queue reason) s) = Unit
IsReport (raised e s) = ⊥

abbrev Totalled : QueueMetrics → Type 0
Totalled m = Sums (some m)

abbrev Good : QueueHealth → Type 0
Good (healthy_queue name latency metrics breaker) = Sums metrics
Good (unhealthy_queue reason) = Unit

-- What a call returns, if it returns.
abbrev Ends : {S A : Type 0} → (A → Type 0) → Outcome S A → Type 0
Ends P (returned a s) = P a
Ends P (raised e s) = Unit

bound_result :
    {S A B : Type 0} (P : B → Type 0) (o : Outcome S A) (f : A → Exec S B)
    → ((a : A) (s : S) → Ends P (f a s))
    → Ends P (elim o as (λ x. Outcome S B) [ returned a s ↦ f a s | raised e s ↦ raised e s ])
bound_result P (returned a s) f h = h a s
bound_result P (raised e s) f h = tt

Ends-bind :
    {S A B : Type 0} (P : B → Type 0) (m : Exec S A) (f : A → Exec S B) (s : S)
    → ((a : A) (t : S) → Ends P (f a t))
    → Ends P ((m >>= f) s)
Ends-bind P m f s h = bound_result P (m s) f h

reported :
    {S : Type 0} (o : Outcome S QueueHealth)
    → Ends Good o
    → IsReport (elim o as (λ x. Outcome S QueueHealth) [
      | returned a s ↦ returned a s
      | raised e s ↦ returned (unhealthy_queue (message e)) s
    ])
reported (returned (healthy_queue name latency metrics breaker) s) h = h
reported (returned (unhealthy_queue reason) s) h = tt
reported (raised e s) h = tt

module _ {S : Type 0} (queue_name : String) where
  counted-Totalled : (queue : BullQueue S) (s : S) → Ends Totalled (counted queue_name queue s)
  counted-Totalled queue s = Ends-bind Totalled queue.get_waiting_count _ s (λ waiting s1.
      Ends-bind Totalled queue.get_active_count _ s1 (λ active s2.
        Ends-bind Totalled queue.get_completed_count _ s2 (λ completed s3.
          Ends-bind Totalled queue.get_failed_count _ s3
            (λ failed s4. Ends-bind Totalled queue.get_delayed_count _ s4 (λ delayed s5. refl)))))

  then_some :
      (o : Outcome S QueueMetrics)
      → Ends Totalled o
      → Ends Sums (elim o as (λ x. Outcome S (Option QueueMetrics)) [
        | returned a s ↦ returned (some a) s
        | raised e s ↦ raised e s
      ])
  then_some (returned a s) h = h
  then_some (raised e s) h = tt

  then_healthy :
      (latency : ℕ) (breaker : Option String) (o : Outcome S (Option QueueMetrics))
      → Ends Sums o
      → Ends Good (elim o as (λ x. Outcome S QueueHealth) [
        | returned m s ↦ returned (healthy_queue queue_name latency m breaker) s
        | raised e s ↦ raised e s
      ])
  then_healthy latency breaker (returned m s) h = h
  then_healthy latency breaker (raised e s) h = tt

  measured-Good :
      (now : S → ℕ) (breaker : Option Bool) (queue : BullQueue S) (s : S)
      → Ends Good (measured queue_name now breaker queue s)
  unfolding get_metrics
  measured-Good now breaker queue s = Ends-bind Good queue.ping _ s (λ u t.
      then_healthy (now t - now s) _ _
        (then_some (counted queue_name queue t) (counted-Totalled queue t)))

  -- A call of the queue's getHealth returns, whatever the queue does; a healthy report has metrics,
  -- whose total is the sum of the counts.
  pub get_health-IsReport :
      (now : S → ℕ) (breaker : Option Bool) (queue : Option (BullQueue S)) (s : S)
      → IsReport (get_health queue_name now breaker queue s)
  unfolding get_health
  get_health-IsReport now breaker none s = tt
  get_health-IsReport now breaker (some queue) s =
      reported (measured queue_name now breaker queue s) (measured-Good now breaker queue s)
