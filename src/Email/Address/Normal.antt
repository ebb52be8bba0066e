-- ===== src/Email/Address/Normal.antt =====
-- The result of normalizeEmail.
use mern_auth.Prelude.{
  suc, ◌≡◌, ap, sym, ◌∙◌, true, false, ◌∷◌, ◌++◌, arith, Bool-cases, Option-cases, inl, inr, take,
  drop, is_empty, take-append, is_empty-append_cons, is_empty-cases, drop-append_cons, All-append,
  All-append_left, All-append_right,
}
use mern_auth.Errors.{ok}
use mern_auth.Text.{Text, trim, to_lower_case, last_index_of, remove_all}
use mern_auth.Text.Laws.{
  NoBlank, trim_of_NoBlank, remove_all_idem, IsLower, to_lower_case-IsLower,
  to_lower_case_of_IsLower, All-remove_all,
}
use mern_auth.Text.Search.{Without, last_index_of-append, last_index_of-eq-some}
use mern_auth.Email.Address.{
  at_sign, dot, ignores_dots, assemble, normalize_trimmed, normalize_email,
}

-- The parts that a normal address has: what is before the last @, and a domain without @.
pub record IsNormal (n : Text) : Type 0 where
  pub local_part : Text
  pub domain : Text
  pub joined : n ≡ local_part ++ at_sign ∷ domain
  pub whole : Without at_sign domain
  pub has_domain : is_empty domain ≡ false
  pub lower : IsLower n
  pub dotless : ignores_dots domain ≡ true → remove_all dot local_part ≡ local_part

module _ (local_part domain : Text) (lower : IsLower (local_part ++ at_sign ∷ domain)) where
  dotless-IsLower : IsLower (remove_all dot local_part ++ at_sign ∷ domain)
  dotless-IsLower =
      All-append _ (remove_all dot local_part) (at_sign ∷ domain)
        (All-remove_all _ dot local_part (All-append_left _ local_part (at_sign ∷ domain) lower))
        (All-append_right _ local_part (at_sign ∷ domain) lower)

  assemble-IsNormal :
      (n : Text)
      → Without at_sign domain
      → assemble (local_part ++ at_sign ∷ domain) local_part domain ≡ ok n
      → IsNormal n
  unfolding assemble
  assemble-IsNormal n w h = elim (Bool-cases (ignores_dots domain)) [
    | inl e ↦
        let same : n ≡ remove_all dot local_part ++ at_sign ∷ domain = ground arith in
        record {
          local_part = remove_all dot local_part;
          domain = domain;
          joined = same;
          whole = w;
          has_domain = ground arith;
          lower = rw same dotless-IsLower;
          dotless = λ _. remove_all_idem dot local_part;
        }
    | inr e ↦
        let same : n ≡ local_part ++ at_sign ∷ domain = ground arith in
        record {
          local_part = local_part;
          domain = domain;
          joined = same;
          whole = w;
          has_domain = ground arith;
          lower = rw same lower;
          dotless = λ d. cc;
        }
  ]

normalize_trimmed-IsNormal : (t n : Text) → IsLower t → normalize_trimmed t ≡ ok n → IsNormal n
unfolding normalize_trimmed
normalize_trimmed-IsNormal t n lower h = elim (Option-cases (last_index_of at_sign t)) [
  | inl e ↦ ground arith
  | inr (i, e) ↦
      let split = last_index_of-eq-some at_sign t i e in
      let assembled : assemble t (take i t) (drop (suc i) t) ≡ ok n = ground arith in
      assemble-IsNormal (take i t) (drop (suc i) t) (rw split.joined lower) n split.last
        (rw split.joined assembled)
]

-- Whatever address normalizeEmail accepts, its result is in lower case and has a last part after @
-- that is free of @ and not empty, and before it no dot if that domain ignores dots.
pub normalize_email-IsNormal : (email n : Text) → normalize_email email ≡ ok n → IsNormal n
unfolding normalize_email
normalize_email-IsNormal email n h =
    normalize_trimmed-IsNormal (to_lower_case (trim email)) n (to_lower_case-IsLower (trim email))
      (ground arith)

-- Joined parts are found again.
pub normalize_trimmed-append :
    (l d : Text)
    → Without at_sign d
    → normalize_trimmed (l ++ at_sign ∷ d) ≡ assemble (l ++ at_sign ∷ d) l d
unfolding normalize_trimmed
normalize_trimmed-append l d w =
    rw (last_index_of-append at_sign l d w, normalize_trimmed) (rw (take-append, drop-append_cons))

assemble_dotless :
    (t l d : Text)
    → is_empty l ≡ false
    → is_empty d ≡ false
    → (ignores_dots d ≡ true → remove_all dot l ≡ l)
    → t ≡ l ++ at_sign ∷ d
    → assemble t l d ≡ ok t
unfolding assemble
assemble_dotless t l d hl hd dotless same = elim (Bool-cases (ignores_dots d)) [
  | inl e ↦ rw (hl, hd, e, dotless e, same)
  | inr e ↦ rw (hl, hd, e)
]

normalize_trimmed_of_IsNormal :
    (n : Text) (normal : IsNormal n)
    → is_empty normal.local_part ≡ false
    → normalize_trimmed n ≡ ok n
normalize_trimmed_of_IsNormal n normal h =
    ap normalize_trimmed normal.joined
    ∙ normalize_trimmed-append normal.local_part normal.domain normal.whole
    ∙ ap (λ t. assemble t normal.local_part normal.domain) (sym normal.joined)
    ∙ assemble_dotless n normal.local_part normal.domain h normal.has_domain normal.dotless
        normal.joined

-- Nothing stands before the only @.
abbrev pub LacksLocal : Text → Type 0
LacksLocal n = (d : Text) × (n ≡ at_sign ∷ d) × Without at_sign d

has_local : (n : Text) (normal : IsNormal n) → ¬ LacksLocal n → is_empty normal.local_part ≡ false
has_local n normal h = elim (is_empty-cases normal.local_part) [
  | inl e ↦ absurd (h (normal.domain, normal.joined ∙ rw e, normal.whole))
  | inr e ↦ e
]

-- A second normalization of an accepted address changes nothing, if the result has no blank and
-- something stands before its last @.
pub normalize_email_idem :
    (email n : Text)
    → normalize_email email ≡ ok n
    → NoBlank n
    → ¬ LacksLocal n
    → normalize_email n ≡ ok n
unfolding normalize_email
normalize_email_idem email n e clean h =
    let normal = normalize_email-IsNormal email n e in
    let again = normalize_trimmed_of_IsNormal n normal (has_local n normal h) in
    let nonempty : is_empty n ≡ false =
      rw normal.joined (is_empty-append_cons normal.local_part at_sign normal.domain) in
    rw (trim_of_NoBlank n clean, to_lower_case_of_IsLower n normal.lower, again) (rw nonempty)
