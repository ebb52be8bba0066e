-- ===== src/Api/Version.antt =====
-- apiVersionMiddleware, apps/api/src/middleware/business/apiVersion.ts: the version of a request's
-- path and the headers of its response; logging is left out.
pub mod Laws
use mern_auth.Prelude.{
  ℕ, String, Bool, true, false, ◌&&◌, Option, none, some, List, [], ◌∷◌, ◌++◌, find, ◌==◌, length,
  drop, if◌then◌else◌,
}
use mern_auth.Text.{Text, codes, split, text_eq, replace}

pub record ApiVersionOptions : Type 0 where
  pub current_version : Text
  pub deprecated_version : Option Text
  pub sunset_date : Option Text
  pub successor_version : Option Text

-- part.startsWith("v")
abbrev pub starts_with_v : Text → Bool
starts_with_v [] = false
starts_with_v (c ∷ s) = c == b'v'

unfoldable pub requested_version : Text → Option Text
unfolding split
requested_version path = find starts_with_v (split b'/' path)

abbrev pub Header : Type 0
Header = String × Text

abbrev pub sunset : Option Text → List Header
sunset none = []
sunset (some date) = ("Sunset", date) ∷ []

abbrev pub slashed : Text → Text
slashed version = b'/' ∷ version ++ b'/' ∷ []

abbrev pub link : Text → Text → Option Text → List Header
link path deprecated none = []
link path deprecated (some successor) =
    (
      "Link",
      codes "<"
          ++ replace (slashed deprecated) (slashed successor) path
          ++ codes ">; rel=\"successor-version\"",
    )
    ∷ []

abbrev pub same_version : Option Text → Text → Bool
same_version none deprecated = false
same_version (some version) deprecated = text_eq version deprecated

-- The headers of a request with this version, for a deprecated version.
unfoldable pub deprecation_headers :
    ApiVersionOptions → Text → Option Text → Option Text → List Header
unfolding replace text_eq
deprecation_headers options path requested none = []
deprecation_headers options path requested (some deprecated) =
    if same_version requested deprecated
    then ("Deprecation", codes "true")
      ∷ (sunset options.sunset_date ++ link path deprecated options.successor_version)
    else []

abbrev pub version_or : Text → Option Text → Text
version_or current none = current
version_or current (some version) = version

-- The headers that the middleware sets, in their order.
unfoldable pub api_version_middleware : ApiVersionOptions → Text → List Header
unfolding requested_version deprecation_headers
api_version_middleware options path =
    deprecation_headers options path (requested_version path) options.deprecated_version
    ++ ("X-API-Version", version_or options.current_version (requested_version path)) ∷ []
