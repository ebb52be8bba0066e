-- ===== src/Examples/Email.antt =====
-- Addresses, providers and emails.
use mern_auth.Prelude.{
  List, List, ℕ, suc, ◌≡◌, ◌↔◌, refl, none, some, [], ◌∷◌, ◌++◌, String, true, false, arith, eq_iff,
}
use mern_auth.Text.{is_blank, Text, codes, to_lower_case, trim, text_eq, last_index_of, remove_all}
use mern_auth.Text.Laws.{NoBlank}
use mern_auth.Text.Search.{Without}
use mern_auth.Errors.{ok, plain}
use mern_auth.Exec.{returned, raised}
use mern_auth.Email.Address.{dot, normalize_email, are_emails_equivalent, ignores_dots, at_sign}
use mern_auth.Email.Address.Normal.{IsNormal, normalize_email-IsNormal, LacksLocal}
use mern_auth.Email.Address.Equivalence.{are_emails_equivalent_iff_parts, SameName}
use mern_auth.Email.Provider.{
  try_providers, Provider, MailOptions, EmailResult, Failures, send_with_failover, providers_to_try,
}
use mern_auth.Email.Provider.Failover.{Delivered, send_with_failover_returned}
use mern_auth.Email.Provider.Order.{HasDistinctNames}
use mern_auth.Examples.Setting.{ann-normalizes}
use mern_auth.Email.Bounce.{Collections, EmailLogUpdate, BounceData, BounceResult, handle_bounce}
use mern_auth.Email.Bounce.Laws.{handle_bounce_lem, unclassified}

abbrev dotted : Text
dotted = codes " Ann.Lee@Gmail.com"

abbrev short : Text
short = codes "annlee@gmail.com"

abbrev tall : Text
tall = codes "A.N.N.lee@gmail.com"

normal : normalize_email short ≡ ok short
unfolding normalize_email last_index_of to_lower_case trim ignores_dots text_eq remove_all
normal = refl

normalize_email-IsNormal_example : IsNormal short
normalize_email-IsNormal_example = normalize_email-IsNormal dotted short ann-normalizes

short-NoBlank : NoBlank short
unfolding is_blank
short-NoBlank = ground arith

short-local : ¬ LacksLocal short
short-local = λ (d, e, w). ground arith

dotted_split : to_lower_case (trim dotted) ≡ codes "ann.lee" ++ at_sign ∷ codes "gmail.com"
unfolding to_lower_case trim
dotted_split = refl

tall_split : to_lower_case (trim tall) ≡ codes "a.n.n.lee" ++ at_sign ∷ codes "gmail.com"
unfolding to_lower_case trim
tall_split = refl

are_emails_equivalent_iff_parts_example : (are_emails_equivalent dotted tall ≡ true) ↔ (
    (codes "gmail.com" ≡ codes "gmail.com")
    × SameName (codes "gmail.com") (codes "ann.lee") (codes "a.n.n.lee"))
are_emails_equivalent_iff_parts_example =
    are_emails_equivalent_iff_parts dotted tall (codes "ann.lee") (codes "a.n.n.lee")
      (codes "gmail.com") (codes "gmail.com") dotted_split tall_split (omega arith) (omega arith)
      refl refl refl refl

gmail_ignores : ignores_dots (codes "gmail.com") ≡ true
unfolding ignores_dots text_eq
gmail_ignores = refl

one_name : remove_all dot (codes "ann.lee") ≡ remove_all dot (codes "a.n.n.lee")
unfolding remove_all
one_name = refl

gmail-plain : Without at_sign (codes "gmail.com")
gmail-plain = omega arith

-- Two providers that count their calls; the first one is down.
abbrev down : Provider ℕ
down = record {
  name = "resend-api";
  send = λ mail s. raised (plain "down") (suc s);
  check_health = λ s. returned (record { healthy = false; name = "resend-api"; error = none }) s;
}

abbrev delivery : EmailResult
delivery = record {
  message_id = some "m1";
  provider = "mailersend-api";
  accepted = [];
  response = "Accepted";
}

abbrev up : Provider ℕ
up = record {
  name = "mailersend-api";
  send = λ mail s. returned delivery (suc s);
  check_health = λ s. returned (record { healthy = true; name = "mailersend-api"; error = none }) s;
}

abbrev mail : MailOptions
mail = record {
  sender = "noreply@example.com";
  recipient = short;
  subject = "Hello";
  html = "<p>Hello</p>";
  text = [];
}

abbrev as_json : Failures → String
as_json failures = "[]"

send_with_failover_returned_example :
    (send_with_failover as_json (down ∷ up ∷ []) mail none 0 ≡ returned delivery 2)
    ↔ Delivered as_json mail (providers_to_try none (down ∷ up ∷ [])) 0 delivery 2
send_with_failover_returned_example =
    send_with_failover_returned as_json mail (down ∷ up ∷ []) none 0 2 delivery

-- The first provider fails, the second one delivers.
failover : send_with_failover as_json (down ∷ up ∷ []) mail none 0 ≡ returned delivery 2
unfolding send_with_failover providers_to_try try_providers
failover = refl

distinct : HasDistinctNames (down ∷ up ∷ [])
distinct = (((λ e. ground (arith, eq_iff "mailersend-api" "resend-api")), tt), (tt, tt))

-- Email logs that keep the updates they are asked for.
abbrev logs : Collections (List EmailLogUpdate)
logs = record {
  find_one_and_update = λ id update s.
      returned (some (record { id = id; provider = some "mailersend-api" })) (update ∷ s);
  find_by_email = λ email s. returned (some (codes "u1")) s;
}

abbrev bounce : BounceData
bounce = record {
  email = short;
  message_id = "m1";
  bounce_type = "hard";
  bounce_reason = some "mailbox unknown";
  timestamp = none;
}

handle_bounce_lem_example :
    (r : BounceResult) × (handle_bounce logs 7 bounce [] ≡ returned r (unclassified 7 ∷ []))
    × (r.success ≡ true)
handle_bounce_lem_example =
    handle_bounce_lem logs 7 bounce (some (record { id = "m1"; provider = some "mailersend-api" }))
      [] (unclassified 7 ∷ []) (some (codes "u1")) refl refl
