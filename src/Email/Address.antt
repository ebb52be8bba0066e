-- ===== src/Email/Address.antt =====
-- packages/utils/src/helpers/email.helpers.ts
pub mod Normal
pub mod Equivalence
use mern_auth.Prelude.{
  ℕ, suc, Bool, true, false, ◌||◌, Option, none, some, List, [], ◌∷◌, ◌++◌, if◌then◌else◌, take,
  drop, is_empty, any,
}
use mern_auth.Errors.{Result, ok, err, plain}
use mern_auth.Text.{Text, codes, text_eq, trim, to_lower_case, last_index_of, remove_all}

abbrev pub at_sign : ℕ
at_sign = b'@'

abbrev pub dot : ℕ
dot = b'.'

-- DOT_IGNORING_DOMAINS
abbrev pub dot_ignoring_domains : List Text
dot_ignoring_domains = codes "gmail.com" ∷ codes "googlemail.com" ∷ []

unfoldable pub ignores_dots : Text → Bool
ignores_dots domain = any (text_eq domain) dot_ignoring_domains

-- What normalizeEmail does once the parts are known.
unfoldable pub assemble : Text → Text → Text → Result Text
assemble trimmed local_part domain =
    if is_empty local_part || is_empty domain
    then err (plain "Invalid email format")
    else if ignores_dots domain
    then ok (remove_all dot local_part ++ at_sign ∷ domain)
    else ok trimmed

unfoldable pub normalize_trimmed : Text → Result Text
unfolding assemble
normalize_trimmed trimmed = elim (last_index_of at_sign trimmed) [
  | none ↦ err (plain "Invalid email format: missing @ symbol")
  | some i ↦ assemble trimmed (take i trimmed) (drop (suc i) trimmed)
]

unfoldable pub normalize_email : Text → Result Text
unfolding normalize_trimmed
normalize_email email =
    if is_empty email
    then err (plain "Email address is required")
    else normalize_trimmed (to_lower_case (trim email))

-- The catch of areEmailsEquivalent.
abbrev pub same_result : Result Text → Result Text → Bool
same_result (ok a) (ok b) = text_eq a b
same_result _ _ = false

unfoldable pub are_emails_equivalent : Text → Text → Bool
unfolding normalize_email
are_emails_equivalent a b = same_result (normalize_email a) (normalize_email b)

abbrev pub checked_domain : Text → Result Text
checked_domain [] = err (plain "Invalid email format: missing domain")
checked_domain (c ∷ s) = ok (c ∷ s)

unfoldable pub get_email_domain : Text → Result Text
get_email_domain email =
    if is_empty email
    then err (plain "Email address is required")
    else elim (last_index_of at_sign email) [
      | none ↦ err (plain "Invalid email format: missing @ symbol")
      | some i ↦ checked_domain (to_lower_case (drop (suc i) email))
    ]
