-- ===== src/Database/Connection/Outcomes.antt =====
-- How a connection with retries can end, by mongoose's own answers.
use mathlib.Core.Path.{subst⁻¹}
use mern_auth.Prelude.{
  ℕ, zero, suc, ◌+◌, ◌*◌, ◌^◌, ◌==◌, ◌≡◌, ◌⊎◌, inl, inr, refl, ◌∙◌, ap, true, false, none, some,
  String, str_eq, eq_iff, arith, Bool-cases, Option-cases,
}
use mern_auth.Errors.{Error, configuration_error, database_connection_error, message}
use mern_auth.Exec.{Outcome, returned, raised}
use mern_auth.Database.Connection.{
  DatabaseConfig, Mongoose, Manager, max_retries, initial_retry_delay, attempt, rounds, connect,
}

module _ {M : Type 0} (mongoose : Mongoose M) (config : DatabaseConfig) where
  abbrev Ending : Type 0
  Ending = Outcome (Manager M) (Unit {0})

  abbrev pub Dialled : Manager M → Outcome M (Unit {0}) → Type 0
  Dialled s o =
      (uri : String) × (config.db_uri ≡ some uri)
      × (str_eq uri "" ≡ false)
      × (mongoose.connect uri s.connection ≡ o)

  -- One attempt: it fails without an address, with mongoose's error, or with that of the ping; the
  -- flag is set after mongoose connected and its database, if there is one, answered a ping.
  pub data Attempted (s : Manager M) : Ending → Type 0 where
    unnamed :
        (config.db_uri ≡ none) ⊎ (config.db_uri ≡ some "")
        → Attempted s (raised (configuration_error "Missing Database Connection String") s)
    refused :
        (e : Error) (m : M)
        → Dialled s (raised e m)
        → Attempted s (raised e (record s { connection = m }))
    unpinged :
        (e : Error) (m m' : M)
        → Dialled s (returned tt m)
        → mongoose.has_db m ≡ true
        → mongoose.ping m ≡ raised e m'
        → Attempted s (raised e (record s { connection = m' }))
    pinged :
        (m m' : M)
        → Dialled s (returned tt m)
        → mongoose.has_db m ≡ true
        → mongoose.ping m ≡ returned tt m'
        → Attempted s (returned tt (record s { is_connected = true; connection = m' }))
    without_db :
        (m : M)
        → Dialled s (returned tt m)
        → mongoose.has_db m ≡ false
        → Attempted s (returned tt (record s { is_connected = true; connection = m }))

  -- Some rounds, with number i the first: the first attempt that succeeds ends them; after one that
  -- fails the delay has passed and the others follow; the error of the last one is wrapped.
  pub data Rounds : ℕ → ℕ → Manager M → Ending → Type 0 where
    settled :
        {left i : ℕ} {s s' : Manager M}
        → Attempted s (returned tt s')
        → Rounds (suc left) i s (returned tt s')
    again :
        {left i : ℕ} {s s' : Manager M} {e : Error} {o : Ending}
        → Attempted s (raised e s')
        → Rounds
            (suc left)
            (suc i)
            (record s' { waited = s'.waited + initial_retry_delay config * 2 ^ i })
            o
        → Rounds (suc (suc left)) i s o
    given_up :
        {i : ℕ} {s s' : Manager M} {e : Error}
        → Attempted s (raised e s')
        → Rounds 1 i s (raised (database_connection_error (message e)) s')

  ping_answers :
      (s : Manager M) (m : M) (uri : String) (o : Outcome M (Unit {0}))
      → config.db_uri ≡ some uri
      → str_eq uri "" ≡ false
      → mongoose.connect uri s.connection ≡ returned tt m
      → mongoose.has_db m ≡ true
      → mongoose.ping m ≡ o
      → Attempted s (attempt mongoose config s)
  unfolding attempt
  ping_answers s m uri (returned u m') c ne d has p =
      let ran : attempt mongoose config s
          ≡ returned tt (record s { is_connected = true; connection = m' }) =
        ground arith in
      subst⁻¹ (Attempted s) ran (pinged m m' (uri, c, ne, d) has p)
  ping_answers s m uri (raised e m') c ne d has p =
      let ran : attempt mongoose config s ≡ raised e (record s { connection = m' }) =
        ground arith in
      subst⁻¹ (Attempted s) ran (unpinged e m m' (uri, c, ne, d) has p)

  dialled :
      (s : Manager M) (uri : String) (o : Outcome M (Unit {0}))
      → config.db_uri ≡ some uri
      → str_eq uri "" ≡ false
      → mongoose.connect uri s.connection ≡ o
      → Attempted s (attempt mongoose config s)
  unfolding attempt
  dialled s uri (returned u m) c ne d = elim (Bool-cases (mongoose.has_db m)) [
    | inl has ↦ ping_answers s m uri (mongoose.ping m) c ne d has refl
    | inr bare ↦
        let ran : attempt mongoose config s
            ≡ returned tt (record s { is_connected = true; connection = m }) =
          ground arith in
        subst⁻¹ (Attempted s) ran (without_db m (uri, c, ne, d) bare)
  ]
  dialled s uri (raised e m) c ne d =
      let ran : attempt mongoose config s ≡ raised e (record s { connection = m }) = ground arith in
      subst⁻¹ (Attempted s) ran (refused e m (uri, c, ne, d))

  nameless :
      (s : Manager M)
      → (config.db_uri ≡ none) ⊎ (config.db_uri ≡ some "")
      → Attempted s (attempt mongoose config s)
  unfolding attempt
  nameless s missing =
      let ran : attempt mongoose config s
          ≡ raised (configuration_error "Missing Database Connection String") s =
        ground arith in
      subst⁻¹ (Attempted s) ran (unnamed missing)

  attempt-Attempted : (s : Manager M) → Attempted s (attempt mongoose config s)
  attempt-Attempted s = elim (Option-cases config.db_uri) [
    | inl missing ↦ nameless s (inl missing)
    | inr (uri, c) ↦ elim (Bool-cases (str_eq uri "")) [
      | inl empty ↦ nameless s (inr (c ∙ ap some ((eq_iff uri "").0 empty)))
      | inr named ↦ dialled s uri (mongoose.connect uri s.connection) c named refl
    ]
  ]

  rounds-Rounds :
      (left i : ℕ) (s : Manager M) (o : Ending)
      → i + suc left ≡ max_retries config
      → attempt mongoose config s ≡ o
      → Attempted s o
      → Rounds (suc left) i s (rounds mongoose config (suc left) i s)
  unfolding rounds
  rounds-Rounds left i s (returned u s') h p a =
      let ran : rounds mongoose config (suc left) i s ≡ returned tt s' = ground arith in
      subst⁻¹ (Rounds (suc left) i s) ran (settled a)
  rounds-Rounds zero i s (raised e s') h p a =
      let ran : rounds mongoose config 1 i s ≡ raised (database_connection_error (message e)) s' =
        ground arith in
      subst⁻¹ (Rounds 1 i s) ran (given_up a)
  rounds-Rounds (suc left) i s (raised e s') h p a =
      let next : Manager M = record s' {
        waited = s'.waited + initial_retry_delay config * 2 ^ i;
      } in
      let ran : rounds mongoose config (suc (suc left)) i s
          ≡ rounds mongoose config (suc left) (suc i) next =
        ground arith in
      subst⁻¹ (Rounds (suc (suc left)) i s) ran (
        again a (
          rounds-Rounds left (suc i) next (attempt mongoose config next) (omega (arith, h)) refl
            (attempt-Attempted next)))

  -- A call of connect that is allowed n + 1 rounds, with the flag unset and mongoose not connected,
  -- ends as these rounds do: it returns, with the flag set, after the first attempt in which
  -- mongoose connects to the configured address and its database, if there is one, answers a ping;
  -- after each other attempt but the last the initial delay times 2 ^ i has passed; and only if all
  -- n + 1 fail it throws DatabaseConnectionError with the message of the last one's error.
  pub connect-Rounds :
      (n : ℕ) (s : Manager M)
      → max_retries config ≡ suc n
      → s.is_connected ≡ false
      → (mongoose.ready_state s.connection == 1) ≡ false
      → Rounds (suc n) 0 s (connect mongoose config s)
  unfolding connect
  connect-Rounds n s h down idle =
      let ran : connect mongoose config s ≡ rounds mongoose config (suc n) 0 s = ground arith in
      subst⁻¹ (Rounds (suc n) 0 s) ran (
        rounds-Rounds n 0 s (attempt mongoose config s) (omega (arith, h)) refl
          (attempt-Attempted s))
