-- ===== src/Text/Laws.antt =====
-- Equality, trimming and lower case.
use mern_auth.Prelude.{
  ℕ, ◌≡◌, refl, ap, ◌∙◌, ◌↔◌, Bool, true, false, [], ◌∷◌, map, arith, All, Bool-cases, inl, inr,
  ◌==◌, select,
}
use mern_auth.Text.{
  Text, text_eq, is_blank, trim_start, keep_end, trim_end, trim, to_lower, to_lower_case,
  remove_all,
}

pub text_eq_iff : (x y : Text) → (text_eq x y ≡ true) ↔ (x ≡ y)
unfolding text_eq
text_eq_iff [] [] = (λ h. refl, λ h. refl)
text_eq_iff [] (b ∷ y) = (λ h. cc, λ h. cc)
text_eq_iff (a ∷ x) [] = (λ h. cc, λ h. cc)
text_eq_iff (a ∷ x) (b ∷ y) = ground (arith, text_eq_iff x y)

pub text_eq_refl : (x : Text) → text_eq x x ≡ true
text_eq_refl x = (text_eq_iff x x).1 refl

-- Lower case does not make or remove blanks.
pub is_blank-to_lower : (c : ℕ) → is_blank (to_lower c) ≡ is_blank c
unfolding is_blank to_lower
is_blank-to_lower c = ground arith

pub to_lower_idem : (c : ℕ) → to_lower (to_lower c) ≡ to_lower c
unfolding to_lower
to_lower_idem c = ground arith

pub to_lower_case_idem : (s : Text) → to_lower_case (to_lower_case s) ≡ to_lower_case s
unfolding to_lower_case
to_lower_case_idem [] = refl
to_lower_case_idem (c ∷ s) = cc (to_lower_idem c, to_lower_case_idem s)

trim_start-to_lower_case : (s : Text) → trim_start (to_lower_case s) ≡ to_lower_case (trim_start s)
unfolding trim_start to_lower_case
trim_start-to_lower_case [] = refl
trim_start-to_lower_case (c ∷ s) = ground (arith, is_blank-to_lower c, trim_start-to_lower_case s)

keep_end-to_lower_case :
    (b : Bool) (c : ℕ) (s : Text)
    → keep_end b (to_lower c) (map to_lower s) ≡ map to_lower (keep_end b c s)
keep_end-to_lower_case true c [] = refl
keep_end-to_lower_case true c (x ∷ s) = refl
keep_end-to_lower_case false c s = refl

trim_end-to_lower_case : (s : Text) → trim_end (to_lower_case s) ≡ to_lower_case (trim_end s)
unfolding trim_end to_lower_case
trim_end-to_lower_case [] = refl
trim_end-to_lower_case (c ∷ s) =
    rw (is_blank-to_lower c, trim_end-to_lower_case s) (keep_end-to_lower_case _ c _)

pub trim-to_lower_case : (s : Text) → trim (to_lower_case s) ≡ to_lower_case (trim s)
trim-to_lower_case s =
    unfold trim in ap trim_end (trim_start-to_lower_case s) ∙ trim_end-to_lower_case (trim_start s)

-- Text without blanks is not trimmed.
abbrev pub NoBlank : Text → Type 0
NoBlank s = All (λ c. is_blank c ≡ false) s

trim_start_of_NoBlank : (s : Text) → NoBlank s → trim_start s ≡ s
unfolding trim_start
trim_start_of_NoBlank [] h = refl
trim_start_of_NoBlank (c ∷ s) (b, h) = rw (b, trim_start)

trim_end_of_NoBlank : (s : Text) → NoBlank s → trim_end s ≡ s
unfolding trim_end
trim_end_of_NoBlank [] h = refl
trim_end_of_NoBlank (c ∷ s) (b, h) = rw (b, trim_end_of_NoBlank s h)

pub trim_of_NoBlank : (s : Text) → NoBlank s → trim s ≡ s
trim_of_NoBlank s h = unfold trim in rw (trim_start_of_NoBlank s h) (trim_end_of_NoBlank s h)

pub remove_all_idem : (c : ℕ) (s : Text) → remove_all c (remove_all c s) ≡ remove_all c s
unfolding remove_all
remove_all_idem c [] = refl
remove_all_idem c (x ∷ s) = ground (arith, remove_all_idem c s)

-- Text in lower case.
abbrev pub IsLower : Text → Type 0
IsLower s = All (λ c. to_lower c ≡ c) s

pub to_lower_case-IsLower : (s : Text) → IsLower (to_lower_case s)
unfolding to_lower_case
to_lower_case-IsLower [] = tt
to_lower_case-IsLower (c ∷ s) = (to_lower_idem c, to_lower_case-IsLower s)

pub to_lower_case_of_IsLower : (s : Text) → IsLower s → to_lower_case s ≡ s
unfolding to_lower_case
to_lower_case_of_IsLower [] h = refl
to_lower_case_of_IsLower (c ∷ s) (e, h) = cc (to_lower_case_of_IsLower s h)

pub All-remove_all {κ} : (P : ℕ → Type κ) (c : ℕ) (s : Text) → All P s → All P (remove_all c s)
unfolding remove_all
All-remove_all P c [] h = tt
All-remove_all P c (x ∷ s) (p, h) = elim (Bool-cases (x == c)) [
  | inl e ↦ rw (e, select) (All-remove_all P c s h)
  | inr e ↦ rw (e, select) (p, All-remove_all P c s h)
]
