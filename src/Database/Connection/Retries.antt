-- ===== src/Database/Connection/Retries.antt =====
-- How long the retries of a connection take.
use native.Mathlib.Numerals.{unary_clauses}
use mern_auth.Prelude.{
  ◌||◌, ap, ◌==◌, ℕ, zero, suc, ◌+◌, ◌*◌, ◌^◌, ◌≤◌, ◌≡◌, refl, ◌⊎◌, inl, inr, true, ltb, ltb→lt,
  arith, Bool-cases,
}
use mern_auth.Errors.{Error}
use mern_auth.Exec.{Outcome, returned, raised, state_of}
use mern_auth.Database.Connection.{
  ping_db, connect_uri, DatabaseConfig, Mongoose, Manager, max_retries, initial_retry_delay,
  attempt, rounds, connect,
}

module _ {M : Type 0} (mongoose : Mongoose M) (config : DatabaseConfig) where
  delay : ℕ
  delay = initial_retry_delay config

  -- What an attempt comes to: the flag set, or an error; no time is slept.
  abbrev Tried : Manager M → Type 0
  Tried s =
      ((s' : Manager M) × (attempt mongoose config s ≡ returned tt s')
        × (s'.is_connected ≡ true)
        × (s'.waited ≡ s.waited))
      ⊎ ((e : Error) × (s' : Manager M) × (attempt mongoose config s ≡ raised e s')
          × (s'.waited ≡ s.waited))

  pinged :
      (s : Manager M) (m : M) (o : Outcome M (Unit {0}))
      → connect_uri mongoose config config.db_uri s.connection ≡ returned tt m
      → ping_db mongoose config m ≡ o
      → Tried s
  unfolding attempt
  pinged s m (returned u m') c p =
      inl (record s { is_connected = true; connection = m' }, ground arith, refl, refl)
  pinged s m (raised e m') c p = inr (e, record s { connection = m' }, ground arith, refl)

  connected :
      (s : Manager M) (o : Outcome M (Unit {0}))
      → connect_uri mongoose config config.db_uri s.connection ≡ o
      → Tried s
  unfolding attempt
  connected s (returned u m) c = pinged s m (ping_db mongoose config m) c refl
  connected s (raised e m) c = inr (e, record s { connection = m }, ground arith, refl)

  attempt_cases : (s : Manager M) → Tried s
  attempt_cases s = connected s (connect_uri mongoose config config.db_uri s.connection) refl

  two_pow : (i : ℕ) → 2 ^ suc i ≡ 2 ^ i * 2
  two_pow i = simp unary_clauses refl

  pow-suc : (d i : ℕ) → d * 2 ^ suc i ≡ 2 * (d * 2 ^ i)
  pow-suc d i = omega (arith, ap (λ (t : ℕ). d * t) (two_pow i))

  pow_grows : (d i k : ℕ) → d * 2 ^ i ≤ d * 2 ^ (i + k)
  pow_grows d i zero = ground arith
  pow_grows d i (suc k) = ground (arith, pow_grows d i k, pow-suc d (i + k))

  step : (i : ℕ) → initial_retry_delay config * 2 ^ suc i ≡ 2 * (initial_retry_delay config * 2 ^ i)
  step i = pow-suc (initial_retry_delay config) i

  rounds-waited :
      (left i : ℕ) (s : Manager M)
      → i + suc left ≡ max_retries config
      → (state_of (rounds mongoose config (suc left) i s)).waited
          + initial_retry_delay config * 2 ^ i
        ≤ s.waited + initial_retry_delay config * 2 ^ (i + left)
  unfolding rounds
  rounds-waited zero i s h = elim (attempt_cases s) [
    | inl (s', ran, up, same) ↦ ground arith
    | inr (e, s', failed, same) ↦ elim (Bool-cases (ltb (i + 1) (max_retries config))) [
      | inl more ↦ ground (arith, ltb→lt (i + 1) (max_retries config) more)
      | inr last ↦ ground arith
    ]
  ]
  rounds-waited (suc left) i s h = elim (attempt_cases s) [
    | inl (s', ran, up, same) ↦ ground (arith, pow_grows (initial_retry_delay config) i (suc left))
    | inr (e, s', failed, same) ↦ elim (Bool-cases (ltb (i + 1) (max_retries config))) [
      | inl more ↦ ground (
        arith,
        step i,
        rounds-waited left (suc i)
            (record s' { waited = s'.waited + initial_retry_delay config * 2 ^ i }),
      )
      | inr last ↦ ground (arith, pow_grows (initial_retry_delay config) i (suc left))
    ]
  ]

  -- Whatever mongoose does, a call of connect that is allowed n + 1 rounds sleeps, in all, at most
  -- the initial delay times 2 ^ n, less the initial delay.
  pub connect-waited :
      (n : ℕ) (s : Manager M)
      → max_retries config ≡ suc n
      → (state_of (connect mongoose config s)).waited + initial_retry_delay config
        ≤ s.waited + initial_retry_delay config * 2 ^ n
  unfolding connect
  connect-waited n s h =
      elim (Bool-cases (s.is_connected || (mongoose.ready_state s.connection == 1))) [
        | inl up ↦ ground (arith, pow_grows (initial_retry_delay config) 0 n)
        | inr down ↦ ground (arith, rounds-waited n 0 s)
      ]
