-- ===== src/Email/Webhook/Versions.antt =====
-- The signature that the Resend provider finds in a header.
use mern_auth.Prelude.{◌≡◌, some, ◌∷◌, ◌++◌, arith}
use mern_auth.Text.{Text, codes, split}
use mern_auth.Text.Search.{Without, split_of_Without, split-append}
use mern_auth.Email.Webhook.Resend.{v1_signature}

spaced :
    (s rest : Text)
    → Without b' ' s
    → split b' ' (codes "v1," ++ s ++ b' ' ∷ rest) ≡ (codes "v1," ++ s) ∷ split b' ' rest
spaced s rest h =
    split-append b' ' (codes "v1," ++ s) rest
      (λ e. omega (arith, e), (λ e. omega (arith, e), (λ e. omega (arith, e), h)))

-- A header of one signature of version v1, without spaces and commas, gives this signature,
-- whatever other signatures follow it.
pub v1_signature-one :
    (s rest : Text)
    → Without b' ' s
    → Without b',' s
    → v1_signature (codes "v1," ++ s ++ b' ' ∷ rest) ≡ some s
unfolding v1_signature
v1_signature-one s rest whole one = rw (spaced s rest whole) (rw (split_of_Without b',' s one))
