-- ===== src/Worker/Service/Start.antt =====
-- What a start of the worker comes to: its steps in their order, up to the first that throws.
use mathlib.Core.List.{append_assoc}
use mathlib.Core.Path.{subst⁻¹}
use mern_auth.Prelude.{Option, none, some, List, [], ◌∷◌, ◌++◌, ◌≡◌, refl, map, sym, ap, ◌∙◌}
use mern_auth.Errors.{Error}
use mern_auth.Exec.{Exec, Outcome, returned, raised, ◌>>◌}
use mern_auth.Worker.Service.{WorkerService, DatabaseService, start, each, connect_database}

module _ {S : Type 0} where
  -- The steps ran in their order, and each returned.
  pub data Ran : List (Exec S (Unit {0})) → S → S → Type 0 where
    none_left : {s : S} → Ran [] s s
    and_then :
        {step : Exec S (Unit {0})} {rest : List (Exec S (Unit {0}))} {s s' s'' : S}
        → step s ≡ returned tt s'
        → Ran rest s' s''
        → Ran (step ∷ rest) s s''

  -- The steps that ran before the one that threw, and the rest, which did not run.
  abbrev pub Broke : List (Exec S (Unit {0})) → S → Error → S → Type 0
  Broke steps s e s' =
      (done : List (Exec S (Unit {0}))) × (failing : Exec S (Unit {0})) × (rest : List
        (Exec S (Unit {0})))
      × (between : S) × (steps ≡ done ++ failing ∷ rest)
      × Ran done s between
      × (failing between ≡ raised e s')

  abbrev pub Follows : List (Exec S (Unit {0})) → S → Outcome S (Unit {0}) → Type 0
  Follows steps s (returned u s') = Ran steps s s'
  Follows steps s (raised e s') = Broke steps s e s'

  abbrev pub database_steps : Option (DatabaseService S) → List (Exec S (Unit {0}))
  database_steps none = []
  database_steps (some database) = database.connect ∷ []

  -- The database, the additional services, the processors.
  abbrev pub start_steps : WorkerService S → List (Exec S (Unit {0}))
  start_steps w =
      database_steps w.database_service ++ (w.init_services ++ map (λ p. p.initialize) w.processors)

  abbrev resume_with : Exec S (Unit {0}) → Outcome S (Unit {0}) → Outcome S (Unit {0})
  resume_with n (returned u s) = n s
  resume_with n (raised e s) = raised e s

  abbrev rethrow : Outcome S (Unit {0}) → Outcome S (Unit {0})
  rethrow (returned u s) = returned u s
  rethrow (raised e s) = raised e s

  append-Ran :
      {done more : List (Exec S (Unit {0}))} {s s' s'' : S}
      → Ran done s s'
      → Ran more s' s''
      → Ran (done ++ more) s s''
  append-Ran none_left k = k
  append-Ran (and_then p h) k = and_then p (append-Ran h k)

  resumed :
      (steps more : List (Exec S (Unit {0}))) (s s' : S) (o : Outcome S (Unit {0}))
      → Ran steps s s'
      → Follows more s' o
      → Follows (steps ++ more) s o
  resumed steps more s s' (returned u s'') h k = append-Ran h k
  resumed steps more s s' (raised e s'') h (done, failing, rest, between, split, ran, broke) = (
    steps ++ done,
    failing,
    rest,
    between,
    ap (λ l. steps ++ l) split ∙ sym (append_assoc steps done (failing ∷ rest)),
    append-Ran h ran,
    broke,
  )

  continued :
      (steps more : List (Exec S (Unit {0}))) (n : Exec S (Unit {0})) (s : S)
      (o : Outcome S (Unit {0}))
      → Follows steps s o
      → ((s' : S) → Follows more s' (n s'))
      → Follows (steps ++ more) s (resume_with n o)
  continued steps more n s (returned u s') h k = resumed steps more s s' (n s') h (k s')
  continued steps more n s (raised e s') (done, failing, rest, between, split, ran, broke) k = (
    done,
    failing,
    rest ++ more,
    between,
    ap (λ l. l ++ more) split ∙ append_assoc done (failing ∷ rest) more,
    ran,
    broke,
  )

  one :
      (step : Exec S (Unit {0})) (s : S) (o : Outcome S (Unit {0}))
      → step s ≡ o
      → Follows (step ∷ []) s o
  one step s (returned u s') p = and_then p none_left
  one step s (raised e s') p = ([], step, [], s, refl, none_left, p)

  each-Follows :
      {A : Type 0} (act : A → Exec S (Unit {0})) (xs : List A) (s : S)
      → Follows (map act xs) s (each act xs s)
  each-Follows act [] s = none_left
  each-Follows act (x ∷ xs) s =
      continued (act x ∷ []) (map act xs) (each act xs) s (act x s) (one (act x) s (act x s) refl)
        (each-Follows act xs)

  database-Follows :
      (database : Option (DatabaseService S)) (s : S)
      → Follows (database_steps database) s (connect_database database s)
  database-Follows none s = none_left
  database-Follows (some database) s = one database.connect s (database.connect s) refl

  init-Follows :
      (steps : List (Exec S (Unit {0}))) (s : S) → Follows steps s (each (λ step. step) steps s)
  init-Follows [] s = none_left
  init-Follows (step ∷ steps) s =
      continued (step ∷ []) steps (each (λ x. x) steps) s (step s) (one step s (step s) refl)
        (init-Follows steps)

  rethrown : (o : Outcome S (Unit {0})) → rethrow o ≡ o
  rethrown (returned u s) = refl
  rethrown (raised e s) = refl

  -- A start that returns has run the connection to the database, each of the additional services
  -- and the initialisation of each processor, in this order; one that throws has run them up to the
  -- first that threw, throws what this threw, and has run none of the rest.
  pub start-Follows : (w : WorkerService S) (s : S) → Follows (start_steps w) s (start w s)
  unfolding start
  start-Follows w s =
      subst⁻¹ (λ o. Follows (start_steps w) s o) (rethrown _)
        (continued (database_steps w.database_service)
          (w.init_services ++ map (λ p. p.initialize) w.processors)
          (do each (λ init. init) w.init_services; each (λ p. p.initialize) w.processors) s
          (connect_database w.database_service s) (database-Follows w.database_service s)
          (λ s'.
            continued w.init_services (map (λ p. p.initialize) w.processors)
              (each (λ p. p.initialize) w.processors) s' (each (λ init. init) w.init_services s')
              (init-Follows w.init_services s') (each-Follows (λ p. p.initialize) w.processors)))
