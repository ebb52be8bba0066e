-- ===== src/Flags/Hash.antt =====
-- The hash of a user's id, and the numbers as Redis keeps them.
use mern_auth.Prelude.{
  ℕ, zero, suc, ◌+◌, ◌*◌, ◌/◌, ◌%◌, ◌<◌, ◌≤◌, ◌≡◌, refl, ◌∙◌, sym, some, [], ◌∷◌, arith, ltb,
  Bool-cases, inl, inr, ltb→lt, ap,
}
use mern_auth.Text.{Text, trim_start, is_blank}
use mern_auth.Flags.{hash_step, hash_from, hash_user_id, digits, to_string, parse_digits, parse_int}

-- The polynomial in 31 whose coefficients are the characters.
unfoldable pub polynomial : ℕ → Text → ℕ
polynomial hash [] = hash
polynomial hash (c ∷ s) = polynomial (31 * hash + c) s

hash_step_lem :
    (hash p c : ℕ) → hash ≡ p % 4294967296 → hash_step hash c ≡ (31 * p + c) % 4294967296
unfolding hash_step
hash_step_lem hash p c h = omega arith

-- With the wrap-around in each round, the hash of a text from a start is, modulo 2 ^ 32, its
-- polynomial in 31 from a number that the start is the remainder of.
pub hash_from-polynomial :
    (s : Text) (hash p : ℕ) → hash ≡ p % 4294967296 → hash_from hash s ≡ polynomial p s % 4294967296
unfolding hash_from polynomial
hash_from-polynomial [] hash p h = h
hash_from-polynomial (c ∷ s) hash p h =
    hash_from-polynomial s (hash_step hash c) (31 * p + c) (hash_step_lem hash p c h)

-- The hash of a user's id is a percentage below 100.
pub hash_user_id_lt : (id : Text) → hash_user_id id < 100
unfolding hash_user_id
hash_user_id_lt id = omega arith

parse_digits-digits :
    (fuel n : ℕ) (rest : Text)
    → n ≤ fuel
    → parse_digits 0 (digits fuel n rest) ≡ parse_digits n rest
unfolding parse_digits digits
parse_digits-digits zero n rest h = ground arith
parse_digits-digits (suc fuel) n rest h =
    ground (arith, parse_digits-digits fuel (n / 10) ((48 + n % 10) ∷ rest))

digits_head :
    (fuel n : ℕ) (rest : Text)
    → n ≤ fuel
    → (c : ℕ) × (s : Text) × (48 ≤ c) × (c ≤ 57) × (digits fuel n rest ≡ c ∷ s)
unfolding digits
digits_head zero n rest h = (48 + n, rest, omega arith, omega arith, refl)
digits_head (suc fuel) n rest h = elim (Bool-cases (ltb n 10)) [
  | inl small ↦ (48 + n, rest, omega arith, omega (arith, ltb→lt n 10 small), ground arith)
  | inr large ↦
      let (c, s, low, high, e) = digits_head fuel (n / 10) ((48 + n % 10) ∷ rest) (ground arith) in
      (c, s, low, high, ground arith)
]

parse_int-digit :
    (c : ℕ) (s : Text) → 48 ≤ c → c ≤ 57 → parse_int (c ∷ s) ≡ some (parse_digits 0 (c ∷ s))
unfolding parse_int trim_start is_blank
parse_int-digit c s low high = ground arith

-- A number that was written as a text is read back.
pub parse_int-to_string : (n : ℕ) → parse_int (to_string n) ≡ some n
unfolding to_string
parse_int-to_string n =
    let (c, s, low, high, e) = digits_head n n [] (omega arith) in
    let read : parse_digits 0 (digits n n []) ≡ n =
      unfold parse_digits in parse_digits-digits n n [] (omega arith) in
    ap parse_int e
    ∙ parse_int-digit c s low high
    ∙ ap (λ t. some (parse_digits 0 t)) (sym e)
    ∙ ap some read

pub to_string-cons : (n : ℕ) → (c : ℕ) × (s : Text) × (to_string n ≡ c ∷ s)
unfolding to_string
to_string-cons n = let (c, s, low, high, e) = digits_head n n [] (omega arith) in (c, s, e)
