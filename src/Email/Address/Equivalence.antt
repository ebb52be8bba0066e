-- ===== src/Email/Address/Equivalence.antt =====
-- areEmailsEquivalent, and what normalizeEmail does not see: case, outer blanks, the dots of a
-- Gmail address.
use mathlib.Core.Path.{subst, subst⁻¹}
use mern_auth.Prelude.{
  ℕ, ◌⊎◌, inl, inr, Bool-cases, if◌then◌else◌, ◌≡◌, ◌↔◌, refl, ap, sym, ◌∙◌, true, false, [], ◌∷◌,
  ◌++◌, arith, is_empty, All, All-append, is_empty-append_cons,
}
use mern_auth.Errors.{Result, ok, err, plain}
use mern_auth.Text.{
  Text, codes, text_eq, trim, trim_start, trim_end, is_blank, to_lower, to_lower_case,
  last_index_of, remove_all,
}
use mern_auth.Text.Laws.{
  text_eq_iff, trim-to_lower_case, to_lower_case_idem, NoBlank, trim_of_NoBlank, IsLower,
  to_lower_case_of_IsLower,
}
use mern_auth.Text.Search.{Without}
use mern_auth.Email.Address.{
  at_sign, dot, ignores_dots, assemble, normalize_trimmed, normalize_email, are_emails_equivalent,
  same_result,
}
use mern_auth.Email.Address.Normal.{normalize_trimmed-append}

same_result_iff :
    (a b : Result Text) → (same_result a b ≡ true) ↔ ((n : Text) × (a ≡ ok n) × (b ≡ ok n))
same_result_iff (ok x) (ok y) =
    (λ h. (x, refl, ap ok (sym ((text_eq_iff x y).0 h))), λ h. ground (arith, text_eq_iff x y))
same_result_iff (ok x) (err e) = (λ h. cc, λ h. cc)
same_result_iff (err e) b = (λ h. cc, λ h. cc)

-- Two addresses are equivalent exactly if both are accepted and have one normal form.
pub are_emails_equivalent_iff :
    (a b : Text)
    → (are_emails_equivalent a b ≡ true)
      ↔ ((n : Text) × (normalize_email a ≡ ok n) × (normalize_email b ≡ ok n))
unfolding are_emails_equivalent
are_emails_equivalent_iff a b = same_result_iff (normalize_email a) (normalize_email b)

-- From equivalent pairs (a, b) and (b, c) of addresses, (b, a) and (a, c) are equivalent.
pub are_emails_equivalent_symm_trans :
    (a b c : Text)
    → are_emails_equivalent a b ≡ true
    → are_emails_equivalent b c ≡ true
    → (are_emails_equivalent b a ≡ true) × (are_emails_equivalent a c ≡ true)
are_emails_equivalent_symm_trans a b c p q =
    let (n, an, bn) = (are_emails_equivalent_iff a b).0 p in
    let (m, bm, cm) = (are_emails_equivalent_iff b c).0 q in
    (
      (are_emails_equivalent_iff b a).1 (n, bn, an),
      (are_emails_equivalent_iff a c).1 (n, an, cm ∙ sym bm ∙ bn),
    )

is_empty-map : (s : Text) → is_empty (to_lower_case s) ≡ is_empty s
unfolding to_lower_case
is_empty-map [] = refl
is_empty-map (c ∷ s) = refl

-- An address and its lower case form have the same outcome.
pub normalize_email-to_lower_case :
    (email : Text) → normalize_email (to_lower_case email) ≡ normalize_email email
unfolding normalize_email
normalize_email-to_lower_case email =
    rw (is_empty-map email, trim-to_lower_case email, to_lower_case_idem (trim email))

-- What is trimmed and in lower case decides the outcome.
normalize_email_of_trimmed :
    (email t : Text)
    → to_lower_case (trim email) ≡ t
    → is_empty t ≡ false
    → normalize_email email ≡ normalize_trimmed t
unfolding normalize_email
normalize_email_of_trimmed [] t e h = unfold trim trim_start trim_end to_lower_case in ground arith
normalize_email_of_trimmed (c ∷ s) t e h = ap normalize_trimmed e

assemble_dots :
    (t u l r d : Text)
    → ignores_dots d ≡ true
    → remove_all dot l ≡ remove_all dot r
    → is_empty l ≡ false
    → is_empty r ≡ false
    → assemble t l d ≡ assemble u r d
unfolding assemble
assemble_dots t u l r d g e hl hr = rw (hl, hr, g, e)

-- At a domain that ignores dots, two addresses whose parts before the last @ are not empty and,
-- trimmed and in lower case, differ in dots alone have the same outcome.
pub dots_ignored :
    (a b l r d : Text)
    → to_lower_case (trim a) ≡ l ++ at_sign ∷ d
    → to_lower_case (trim b) ≡ r ++ at_sign ∷ d
    → Without at_sign d
    → ignores_dots d ≡ true
    → remove_all dot l ≡ remove_all dot r
    → is_empty l ≡ false
    → is_empty r ≡ false
    → normalize_email a ≡ normalize_email b
dots_ignored a b l r d ea eb w g e hl hr =
    normalize_email_of_trimmed a _ ea (is_empty-append_cons l at_sign d)
    ∙ normalize_trimmed-append l d w
    ∙ assemble_dots _ _ l r d g e hl hr
    ∙ sym (normalize_trimmed-append r d w)
    ∙ sym (normalize_email_of_trimmed b _ eb (is_empty-append_cons r at_sign d))

not_Without : (c : ℕ) (r t : Text) → Without c (r ++ c ∷ t) → ⊥
not_Without c [] t (ne, h) = ne refl
not_Without c (x ∷ r) t (ne, h) = not_Without c r t h

-- The last @ is at one place.
parts_unique :
    (c : ℕ) (l r d e : Text)
    → Without c d
    → Without c e
    → l ++ c ∷ d ≡ r ++ c ∷ e
    → (l ≡ r) × (d ≡ e)
parts_unique c [] [] d e u v h = (refl, cc)
parts_unique c [] (x ∷ r) d e u v h =
    let same : d ≡ r ++ c ∷ e = cc in elim (not_Without c r e (subst (Without c) same u)) [ ]
parts_unique c (x ∷ l) [] d e u v h =
    let same : l ++ c ∷ d ≡ e = cc in elim (not_Without c l d (subst⁻¹ (Without c) same v)) [ ]
parts_unique c (x ∷ l) (y ∷ r) d e u v h =
    let first : x ≡ y = cc in
    let rest : l ++ c ∷ d ≡ r ++ c ∷ e = cc in
    let (ls, ds) = parts_unique c l r d e u v rest in (cc, ds)

-- What stands before the @ of a normal form.
canonical : Text → Text → Text
canonical d l = if ignores_dots d then remove_all dot l else l

-- One name: the same, or, where dots are ignored, the same but for dots.
abbrev pub SameName : Text → Text → Text → Type 0
SameName d l r = ((ignores_dots d ≡ true) × (remove_all dot l ≡ remove_all dot r)) ⊎ (l ≡ r)

canonical_iff : (d l r : Text) → (canonical d l ≡ canonical d r) ↔ SameName d l r
unfolding canonical
canonical_iff d l r = elim (Bool-cases (ignores_dots d)) [
  | inl g ↦
      rw g ((λ h. inl (refl, h)), λ h. elim h [ inl (x, e) ↦ e | inr e ↦ ap (remove_all dot) e ])
  | inr g ↦ rw g ((λ h. inr h), λ h. elim h [ inl (x, e) ↦ cc | inr e ↦ e ])
]

normalize_email-canonical :
    (a l d : Text)
    → to_lower_case (trim a) ≡ l ++ at_sign ∷ d
    → Without at_sign d
    → is_empty l ≡ false
    → is_empty d ≡ false
    → normalize_email a ≡ ok (canonical d l ++ at_sign ∷ d)
unfolding assemble canonical
normalize_email-canonical a l d e w nl nd =
    normalize_email_of_trimmed a _ e (is_empty-append_cons l at_sign d)
    ∙ normalize_trimmed-append l d w
    ∙ elim (Bool-cases (ignores_dots d)) [ inl g ↦ rw (nl, nd, g) | inr g ↦ rw (nl, nd, g) ]

-- Two addresses that are, trimmed and in lower case, a name, an @ and a domain without an @, none
-- of them empty, are equivalent exactly if their domains are the same and their names are the same,
-- or the same but for dots where the domain ignores dots.
pub are_emails_equivalent_iff_parts :
    (a b l r d e : Text)
    → to_lower_case (trim a) ≡ l ++ at_sign ∷ d
    → to_lower_case (trim b) ≡ r ++ at_sign ∷ e
    → Without at_sign d
    → Without at_sign e
    → is_empty l ≡ false
    → is_empty d ≡ false
    → is_empty r ≡ false
    → is_empty e ≡ false
    → (are_emails_equivalent a b ≡ true) ↔ ((d ≡ e) × SameName d l r)
are_emails_equivalent_iff_parts a b l r d e pa pb wd we nl nd nr ne =
    let fa = normalize_email-canonical a l d pa wd nl nd in
    let fb = normalize_email-canonical b r e pb we nr ne in
    (
      λ h.
          let (n, an, bn) = (are_emails_equivalent_iff a b).0 h in
          let same : canonical d l ++ at_sign ∷ d ≡ canonical e r ++ at_sign ∷ e = cc in
          let (ls, ds) = parts_unique at_sign (canonical d l) (canonical e r) d e wd we same in
          (ds, (canonical_iff d l r).0 (ls ∙ ap (λ x. canonical x r) (sym ds))),
      λ (ds, names).
          let ls = (canonical_iff d l r).1 names in
          (are_emails_equivalent_iff a b).1 (
            canonical d l ++ at_sign ∷ d,
            fa,
            fb
                ∙ ap (λ x. ok (canonical x r ++ at_sign ∷ x)) (sym ds)
                ∙ ap (λ x. ok (x ++ at_sign ∷ d)) (sym ls),
          ),
    )

-- A text of dots.
abbrev pub IsDots : Text → Type 0
IsDots s = All (λ c. c ≡ dot) s

abbrev gmail : Text
gmail = codes "gmail.com"

IsDots-NoBlank : (s : Text) → IsDots s → NoBlank s
unfolding is_blank
IsDots-NoBlank [] h = tt
IsDots-NoBlank (c ∷ s) (e, h) = (rw e, IsDots-NoBlank s h)

IsDots-IsLower : (s : Text) → IsDots s → IsLower s
unfolding to_lower
IsDots-IsLower [] h = tt
IsDots-IsLower (c ∷ s) (e, h) = (rw e, IsDots-IsLower s h)

remove_all-IsDots : (s : Text) → IsDots s → remove_all dot s ≡ []
unfolding remove_all
remove_all-IsDots [] h = refl
remove_all-IsDots (c ∷ s) (e, h) = ground (arith, remove_all-IsDots s h)

IsDots-trimmed :
    (s : Text) → IsDots s → to_lower_case (trim (s ++ at_sign ∷ gmail)) ≡ s ++ at_sign ∷ gmail
unfolding is_blank to_lower
IsDots-trimmed s h =
    ap to_lower_case (
      trim_of_NoBlank (s ++ at_sign ∷ gmail) (
        All-append _ s (at_sign ∷ gmail) (IsDots-NoBlank s h)
          (refl, (refl, (refl, (refl, (refl, (refl, (refl, (refl, (refl, (refl, tt))))))))))))
    ∙ to_lower_case_of_IsLower (s ++ at_sign ∷ gmail) (
        All-append _ s (at_sign ∷ gmail) (IsDots-IsLower s h)
          (refl, (refl, (refl, (refl, (refl, (refl, (refl, (refl, (refl, (refl, tt)))))))))))

gmail-Without : Without at_sign gmail
gmail-Without = omega arith

bare_gmail : normalize_email (at_sign ∷ gmail) ≡ err (plain "Invalid email format")
unfolding normalize_email last_index_of trim to_lower_case
bare_gmail = refl

assemble_dots_only :
    (t s : Text) → IsDots s → is_empty s ≡ false → assemble t s gmail ≡ ok (at_sign ∷ gmail)
unfolding assemble ignores_dots text_eq
assemble_dots_only t s h e = rw (e, remove_all-IsDots s h)

-- Dots alone, one or more, before the @ of a Gmail address are accepted: the normal form has
-- nothing before the @, and a second normalization refuses it.
pub dots_only :
    (s : Text)
    → IsDots s
    → is_empty s ≡ false
    → (normalize_email (s ++ at_sign ∷ codes "gmail.com") ≡ ok (at_sign ∷ codes "gmail.com"))
      × (normalize_email (at_sign ∷ codes "gmail.com") ≡ err (plain "Invalid email format"))
dots_only s h e = (
  normalize_email_of_trimmed (s ++ at_sign ∷ gmail) _ (IsDots-trimmed s h)
        (is_empty-append_cons s at_sign gmail)
      ∙ normalize_trimmed-append s gmail gmail-Without
      ∙ assemble_dots_only _ s h e,
  bare_gmail,
)
