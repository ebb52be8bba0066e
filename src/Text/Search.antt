-- ===== src/Text/Search.antt =====
-- lastIndexOf and the parts of a text around a character.
use mern_auth.Prelude.{
  ℕ, zero, suc, ◌≡◌, ◌≢◌, refl, ap, none, some, [], ◌∷◌, ◌++◌, arith, Option-cases, inl, inr, All,
  length, take, drop, ◌==◌, if◌then◌else◌,
}
use mern_auth.Text.{Text, last_index_of, split}

-- `c` does not occur.
abbrev pub Without : ℕ → Text → Type 0
Without c s = All (λ x. x ≢ c) s

pub last_index_of-eq-none : (c : ℕ) (s : Text) → last_index_of c s ≡ none → Without c s
unfolding last_index_of
last_index_of-eq-none c [] h = tt
last_index_of-eq-none c (x ∷ s) h = elim (Option-cases (last_index_of c s)) [
  | inl e ↦
      let tested : (if x == c then some zero else none) ≡ none = rw e at h in
      (λ same. ground arith, last_index_of-eq-none c s e)
  | inr (i, e) ↦ ground arith
]

pub last_index_of_of_Without : (c : ℕ) (s : Text) → Without c s → last_index_of c s ≡ none
unfolding last_index_of
last_index_of_of_Without c [] h = refl
last_index_of_of_Without c (x ∷ s) (ne, h) = rw (last_index_of_of_Without c s h) (ground arith)

-- The text is the part before the place found, the character, and a part without it.
pub record SplitsAt (c : ℕ) (s : Text) (i : ℕ) : Type 0 where
  pub joined : take i s ++ c ∷ drop (suc i) s ≡ s
  pub last : Without c (drop (suc i) s)

pub last_index_of-eq-some : (c : ℕ) (s : Text) (i : ℕ) → last_index_of c s ≡ some i → SplitsAt c s i
unfolding last_index_of
last_index_of-eq-some c [] i h = cc
last_index_of-eq-some c (x ∷ s) i h = elim (Option-cases (last_index_of c s)) [
  | inl e ↦
      let first : i ≡ 0 = ground arith in
      let same : x ≡ c = ground arith in
      rw first (record { joined = rw same; last = last_index_of-eq-none c s e })
  | inr (j, e) ↦
      let later : i ≡ suc j = ground arith in
      let ih = last_index_of-eq-some c s j e in
      rw later (record { joined = ap (λ l. x ∷ l) ih.joined; last = ih.last })
]

pub last_index_of-append :
    (c : ℕ) (s t : Text) → Without c t → last_index_of c (s ++ c ∷ t) ≡ some (length s)
unfolding last_index_of
last_index_of-append c [] t h = rw (last_index_of_of_Without c t h) (ground arith)
last_index_of-append c (x ∷ s) t h = rw (last_index_of-append c s t h)

pub split_of_Without : (c : ℕ) (s : Text) → Without c s → split c s ≡ s ∷ []
unfolding split
split_of_Without c [] h = refl
split_of_Without c (x ∷ s) (ne, h) = rw (split_of_Without c s h) (ground arith)

-- The first part ends at the first separator.
pub split-append : (c : ℕ) (s t : Text) → Without c s → split c (s ++ c ∷ t) ≡ s ∷ split c t
unfolding split
split-append c [] t h = ground arith
split-append c (x ∷ s) t (ne, h) = rw (split-append c s t h) (ground arith)
