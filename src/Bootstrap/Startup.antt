-- ===== src/Bootstrap/Startup.antt =====
-- When a startup and a shutdown succeed.
use mathlib.Core.Path.{subst, subst⁻¹}
use mathlib.Core.Bool.{true≢false}
use mern_auth.Prelude.{
  none, some, ◌⊎◌, ap, sym, ◌∙◌, ℕ, ◌+◌, ◌<◌, ◌≡◌, ◌↔◌, refl, true, Option, List, [], ◌∷◌, map,
  is_empty, ltb, ltb→lt, arith, Bool-cases, inl, inr,
}
use mern_auth.Errors.{Error}
use mern_auth.Exec.{Exec, Outcome, returned, raised, state_of, try_catch, pure, ◌>>=◌, ◌>>◌}
use mern_auth.Worker.Service.Start.{Ran, none_left, and_then}
use mern_auth.Bootstrap.{
  ServiceDefinition, Started, all_started, process_exit, settle_all, start_services,
  shutdown_promise, race, graceful_shutdown,
}

module _ {S : Type 0} where
  -- Each service is initialised in the state that the one before left, whether it threw or not.
  abbrev pub run_each : List (ServiceDefinition S) → S → S
  run_each [] s = s
  run_each (service ∷ services) s = run_each services (state_of (service.init s))

  first_of :
      (step : Exec S (Unit {0})) (rest : List (Exec S (Unit {0}))) (s s'' : S)
      → Ran (step ∷ rest) s s''
      → (s' : S) × (step s ≡ returned tt s') × Ran rest s' s''
  first_of step rest s s'' (and_then p h) = (_, p, h)

  -- The state after a run, and that the services settle without an error exactly if each returns.
  abbrev SettledAs : List (ServiceDefinition S) → S → List Error × S → S → Type 0
  SettledAs services s o end =
      (o.1 ≡ end) × ((is_empty o.0 ≡ true) ↔ Ran (map (λ v. v.init) services) s end)

  abbrev Settled : List (ServiceDefinition S) → S → Type 0
  Settled services s = SettledAs services s (settle_all services s) (run_each services s)

  states_agree : (s s' : S) → returned tt s ≡ returned tt s' → s ≡ s'
  states_agree s s' p = ap state_of p

  returned_raised : {A : Type 0} (e : Error) (s s' : S) → returned tt s ≡ raised e s' → A
  returned_raised e s s' p = ground arith

  settled :
      (service : ServiceDefinition S) (services : List (ServiceDefinition S)) (s : S)
      (q : Outcome S (Unit {0}))
      → service.init s ≡ q
      → Settled services (state_of q)
      → Settled (service ∷ services) s
  unfolding settle_all
  settled service services s (returned u s') p (state, ran) =
      let same : settle_all (service ∷ services) s ≡ settle_all services s' = rw p in
      let end : run_each (service ∷ services) s ≡ run_each services s' = rw (run_each, p) in
      subst⁻¹ (λ o. SettledAs (service ∷ services) s o (run_each (service ∷ services) s)) same
        (subst⁻¹ (SettledAs (service ∷ services) s (settle_all services s')) end (
          state,
          (
            λ h. and_then p (ran.0 h),
            λ r.
                let (s1, q, rest) =
                  first_of service.init (map (λ v. v.init) services) s (run_each services s') r in
                ran.1 (
                  subst (λ x. Ran (map (λ v. v.init) services) x (run_each services s'))
                    (states_agree s1 s' (sym q ∙ p)) rest),
          ),
        ))
  settled service services s (raised e s') p (state, ran) =
      let rest = settle_all services s' in
      let same : settle_all (service ∷ services) s ≡ (e ∷ rest.0, rest.1) = rw p in
      let end : run_each (service ∷ services) s ≡ run_each services s' = rw (run_each, p) in
      subst⁻¹ (λ o. SettledAs (service ∷ services) s o (run_each (service ∷ services) s)) same
        (subst⁻¹ (SettledAs (service ∷ services) s (e ∷ rest.0, rest.1)) end (
          state,
          (
            λ h. ground arith,
            λ r.
                let (s1, q, more) =
                  first_of service.init (map (λ v. v.init) services) s (run_each services s') r in
                returned_raised e s1 s' (sym q ∙ p),
          ),
        ))

  settle_all-Settled : (services : List (ServiceDefinition S)) (s : S) → Settled services s
  unfolding settle_all
  settle_all-Settled [] s = (refl, (λ h. none_left, λ h. refl))
  settle_all-Settled (service ∷ services) s =
      settled service services s (service.init s) refl
        (settle_all-Settled services (state_of (service.init s)))

  -- How a startup ends.
  abbrev pub Outcomes : (ℕ → S → S) → ℕ → List (ServiceDefinition S) → S → Started × S → Type 0
  Outcomes sleep timeout services s o =
      (Ran (map (λ v. v.init) services) s (run_each services s)
        × (o ≡ (all_started, run_each services s)))
      ⊎ ((¬ Ran (map (λ v. v.init) services) s (run_each services s))
          × (o ≡ (process_exit 1, sleep timeout (run_each services s))))

  -- Every service is initialised, also after one that failed; if each of them returns, the
  -- application is started, and otherwise the process exits with 1 after the timeout.
  pub start_services-Outcomes :
      (sleep : ℕ → S → S) (timeout : ℕ) (services : List (ServiceDefinition S)) (s : S)
      → Outcomes sleep timeout services s (start_services sleep timeout services s)
  unfolding start_services
  start_services-Outcomes sleep timeout services s =
      let (state, ran) = settle_all-Settled services s in
      elim (Bool-cases (is_empty (settle_all services s).0)) [
        | inl clean ↦ inl (ran.0 clean, rw (clean, state))
        | inr broken ↦ inr (λ r. true≢false (sym (ran.1 r) ∙ broken), rw (broken, state))
      ]

module _ {S : Type 0} (now : S → ℕ) where
  -- The state that the hook leaves, whether it returned or threw; without a hook, the same one.
  abbrev pub after_hook : Option (Exec S (Unit {0})) → S → S
  after_hook none s = s
  after_hook (some hook) s = state_of (hook s)

  -- The server was closed and the hook has ended, each in any way; then the database disconnected.
  abbrev pub InTime :
      Exec S (Unit {0}) → Option (Exec S (Unit {0})) → Exec S (Unit {0}) → ℕ → S → Type 0
  InTime close on_shutdown disconnect timeout s =
      (s' : S) × (disconnect (after_hook on_shutdown (state_of (close s))) ≡ returned tt s')
      × (now s' < now s + timeout)

  closed :
      (close rest : Exec S (Unit {0})) (s : S) (q : Outcome S (Unit {0}))
      → close s ≡ q
      → (try_catch close (λ e. pure tt) >> rest) s ≡ rest (state_of q)
  closed close rest s (returned u s') p = rw (◌>>=◌, p)
  closed close rest s (raised e s') p = rw (◌>>=◌, p)

  hooked_at :
      (hook disconnect : Exec S (Unit {0})) (s : S) (q : Outcome S (Unit {0}))
      → hook s ≡ q
      → shutdown_promise (some hook) disconnect s ≡ disconnect (state_of q)
  unfolding shutdown_promise
  hooked_at hook disconnect s q p = closed hook disconnect s q p

  hooked :
      (hook : Option (Exec S (Unit {0}))) (disconnect : Exec S (Unit {0})) (s : S)
      → shutdown_promise hook disconnect s ≡ disconnect (after_hook hook s)
  unfolding shutdown_promise
  hooked none disconnect s = refl
  hooked (some hook) disconnect s = hooked_at hook disconnect s (hook s) refl

  shut_down :
      (close disconnect : Exec S (Unit {0})) (hook : Option (Exec S (Unit {0}))) (timeout : ℕ)
      (s : S)
      → graceful_shutdown now close hook disconnect timeout s
        ≡ race now (now s) timeout (disconnect (after_hook hook (state_of (close s))))
  unfolding graceful_shutdown
  shut_down close disconnect hook timeout s = ap (race now (now s) timeout) (
      closed close (shutdown_promise hook disconnect) s (close s) refl
      ∙ hooked hook disconnect (state_of (close s)))

  raced :
      (start timeout : ℕ) (o : Outcome S (Unit {0}))
      → (race now start timeout o ≡ 0)
        ↔ ((s' : S) × (o ≡ returned tt s') × (now s' < start + timeout))
  raced start timeout (returned u s') = elim (Bool-cases (ltb (now s') (start + timeout))) [
    | inl soon ↦ (λ h. (s', refl, ltb→lt (now s') (start + timeout) soon), λ h. ground arith)
    | inr late ↦ (λ h. ground arith, λ (t, p, soon). ground arith)
  ]
  raced start timeout (raised e s') = (λ h. ground arith, λ (t, p, soon). ground arith)

  -- A shutdown exits with 0 exactly if the database disconnects without an error, in the state in
  -- which the closed server and then the hook, if there is one, have left it, each by a value or by
  -- a throw, and this is done before the timeout.
  pub graceful_shutdown_iff :
      (close disconnect : Exec S (Unit {0})) (hook : Option (Exec S (Unit {0}))) (timeout : ℕ)
      (s : S)
      → (graceful_shutdown now close hook disconnect timeout s ≡ 0)
        ↔ InTime close hook disconnect timeout s
  graceful_shutdown_iff close disconnect hook timeout s =
      subst⁻¹ (λ n. (n ≡ 0) ↔ InTime close hook disconnect timeout s)
        (shut_down close disconnect hook timeout s)
        (raced (now s) timeout (disconnect (after_hook hook (state_of (close s)))))
