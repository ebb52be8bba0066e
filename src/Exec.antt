-- ===== src/Exec.antt =====
-- Asynchronous methods over shared state: one call runs to its end, and ends by a value or by a
-- throw. What was written before a throw stays written.
use mern_auth.Errors.{Error, Result, ok, err}

pub data Outcome (S A : Type 0) : Type 0 where
  returned : A → S → Outcome S A
  raised : Error → S → Outcome S A

abbrev pub Exec : Type 0 → Type 0 → Type 0
Exec S A = S → Outcome S A

module _ {S A : Type 0} where
  abbrev pub pure : A → Exec S A
  pure a s = returned a s

  abbrev pub throw : Error → Exec S A
  throw e s = raised e s

  abbrev pub lift : Result A → Exec S A
  lift (ok a) s = returned a s
  lift (err e) s = raised e s

  -- try { m } catch (e) { handler(e) }
  abbrev pub try_catch : Exec S A → (Error → Exec S A) → Exec S A
  try_catch m handler s = elim (m s) [ returned a s' ↦ returned a s' | raised e s' ↦ handler e s' ]

  -- The state that a call leaves.
  abbrev pub state_of : Outcome S A → S
  state_of (returned a s) = s
  state_of (raised e s) = s

module _ {S A B : Type 0} where
  infixl 5 ◌>>=◌ ◌>>◌
  abbrev pub ◌>>=◌ : Exec S A → (A → Exec S B) → Exec S B
  ◌>>=◌ m f s = elim (m s) [ returned a s' ↦ f a s' | raised e s' ↦ raised e s' ]

  abbrev pub ◌>>◌ : Exec S A → Exec S B → Exec S B
  m >> n = m >>= λ _. n

-- Runs a method of a component whose state is one part of a larger one.
module _ {S T A : Type 0} (part : S → T) (put : T → S → S) where
  abbrev pub embed : Exec T A → Exec S A
  embed m s = elim (m (part s)) [
    | returned a t ↦ returned a (put t s)
    | raised e t ↦ raised e (put t s)
  ]
