-- ===== src/Api/Version/Laws.antt =====
-- The version of a path, and the link to its successor.
use mathlib.Core.List.{append_assoc}
use mern_auth.Prelude.{
  ◌≢◌, drop, length, All-append, ◌≡◌, refl, true, false, Option, none, some, [], ◌∷◌, ◌++◌, find,
  arith, Bool-cases, inl, inr, ap, drop-append,
}
use mern_auth.Text.{Text, codes, text_eq, replace_after, expand, replace, is_prefix}
use mern_auth.Text.Laws.{text_eq_refl, text_eq_iff}
use mern_auth.Text.Search.{Without, split-append}
use mern_auth.Api.Version.{
  ApiVersionOptions, requested_version, starts_with_v, slashed, api_version_middleware,
  deprecation_headers, sunset, same_version, version_or,
}

is_prefix-append : (s t : Text) → is_prefix s (s ++ t) ≡ true
unfolding is_prefix
is_prefix-append [] t = refl
is_prefix-append (c ∷ s) t = ground (arith, is_prefix-append s t)

-- A path /version/rest has this version.
pub requested_version-versioned :
    (version rest : Text)
    → starts_with_v version ≡ true
    → Without b'/' version
    → requested_version (b'/' ∷ version ++ b'/' ∷ rest) ≡ some version
unfolding requested_version
requested_version-versioned version rest v whole =
    rw (split-append b'/' version rest whole, find, v)

-- A replacement without $ stands as it is.
expand_of_Without : (before found after s : Text) → Without b'$' s → expand before found after s ≡ s
unfolding expand
expand_of_Without before found after [] h = refl
expand_of_Without before found after (c ∷ []) h = refl
expand_of_Without before found after (c ∷ d ∷ s) (ne, h) =
    ground (arith, expand_of_Without before found after (d ∷ s) h)

slashed-Without : (version : Text) → Without b'$' version → Without b'$' (slashed version)
slashed-Without version h = (
  λ e. omega (arith, e),
  All-append (λ x. x ≢ b'$') version (b'/' ∷ []) h (λ e. omega (arith, e), tt),
)

replace-slashed :
    (old new rest : Text)
    → Without b'$' new
    → replace (slashed old) (slashed new) (slashed old ++ rest) ≡ slashed new ++ rest
unfolding replace replace_after
replace-slashed old new rest plain_text = rw (
  is_prefix-append (old ++ b'/' ∷ []) rest,
  expand_of_Without [] (slashed old) (drop (length (slashed old)) (slashed old ++ rest))
      (slashed new) (slashed-Without new plain_text),
  drop-append (old ++ b'/' ∷ []) rest,
)

slashed-append : (s rest : Text) → slashed s ++ rest ≡ b'/' ∷ s ++ b'/' ∷ rest
slashed-append s rest = ap (λ t. b'/' ∷ t) (append_assoc s (b'/' ∷ []) rest)

requested_version-slashed :
    (version rest : Text)
    → starts_with_v version ≡ true
    → Without b'/' version
    → requested_version (slashed version ++ rest) ≡ some version
requested_version-slashed version rest v whole =
    rw (slashed-append version rest) (requested_version-versioned version rest v whole)

-- A request to a path that starts with the deprecated version between two slashes, where this
-- version begins with v and has no slash and its successor has no $, is answered with the header
-- Deprecation, then Sunset if there is a date, then Link with the path that has the successor in
-- its place, then this version.
pub api_version_middleware-deprecated :
    (version successor rest : Text) (date : Option Text) (current : Text)
    → starts_with_v version ≡ true
    → Without b'/' version
    → Without b'$' successor
    → api_version_middleware
        (record {
          current_version = current;
          deprecated_version = some version;
          sunset_date = date;
          successor_version = some successor;
        })
        (slashed version ++ rest)
      ≡ ("Deprecation", codes "true")
        ∷ ((sunset date
              ++ (
                "Link",
                codes "<" ++ (slashed successor ++ rest) ++ codes ">; rel=\"successor-version\"",
              )
                ∷ [])
            ++ ("X-API-Version", version) ∷ [])
unfolding api_version_middleware deprecation_headers
api_version_middleware-deprecated version successor rest date current v whole plain_text = rw (
  requested_version-slashed version rest v whole,
  text_eq_refl version,
  replace-slashed version successor rest plain_text,
)

same_version-differs : (o : Option Text) (d : Text) → ¬ (o ≡ some d) → same_version o d ≡ false
same_version-differs none d other = refl
same_version-differs (some v) d other = elim (Bool-cases (text_eq v d)) [
  | inl same ↦ elim (other (ap some ((text_eq_iff v d).0 same))) [ ]
  | inr differs ↦ differs
]

-- A request under another version, or under none, gets the version alone.
pub api_version_middleware-current :
    (options : ApiVersionOptions) (path deprecated : Text)
    → options.deprecated_version ≡ some deprecated
    → ¬ (requested_version path ≡ some deprecated)
    → api_version_middleware options path
      ≡ ("X-API-Version", version_or options.current_version (requested_version path)) ∷ []
unfolding api_version_middleware deprecation_headers
api_version_middleware-current options path deprecated d other =
    rw (d, same_version-differs (requested_version path) deprecated other)
