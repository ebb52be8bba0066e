-- ===== src/Email/Bounce/Laws.antt =====
-- What a bounce leaves in the collections.
use mern_auth.Prelude.{
  ℕ, ◌≡◌, refl, Bool, true, false, Option, none, some, arith, Bool-cases, inl, inr, str_eq,
}
use mern_auth.Text.{Text}
use mern_auth.Exec.{returned}
use mern_auth.Email.Service.{bounced}
use mern_auth.Email.Bounce.{
  field, BounceData, EmailLog, EmailLogUpdate, Collections, BounceResult, bounce_update,
  bounce_fields, record_bounce, classify, handle_bounce, handled, missing, marked_invalid,
  unsubscribed, not_found_result, is_resend, retry_alternate_provider, logged, field,
}

abbrev pub unclassified : ℕ → EmailLogUpdate
unclassified now = record {
  status = bounced;
  bounced_at = now;
  bounce_type = missing;
  bounce_reason = missing;
}

-- Whatever a bounce says, the update lacks its type and its reason.
pub bounce_update-bounce_fields :
    (now : ℕ) (d : BounceData) → bounce_update now (bounce_fields now d) ≡ unclassified now
unfolding bounce_update bounce_fields field
bounce_update-bounce_fields now d = refl

abbrev pub is_found : Option EmailLog → Bool
is_found none = false
is_found (some log) = true

module _ {S : Type 0} (collections : Collections S) (now : ℕ) where
  classify_reads :
      (d : BounceData) (log : EmailLog) (s : S) (user : Option Text)
      → collections.find_by_email d.email s ≡ returned user s
      → (r : BounceResult) × (classify collections now d log s ≡ returned r s) × (r.success ≡ true)
  unfolding classify
  classify_reads d log s user reads = elim (Bool-cases (str_eq d.bounce_type "hard")) [
    | inl hard ↦ elim (Bool-cases (is_resend log.provider)) [
      | inl resend ↦ (handled retry_alternate_provider log none, ground arith, refl)
      | inr other ↦ (handled marked_invalid log user, ground arith, refl)
    ]
    | inr not_hard ↦ elim (Bool-cases (str_eq d.bounce_type "soft")) [
      | inl soft ↦ (handled retry_alternate_provider log none, ground arith, refl)
      | inr not_soft ↦ elim (Bool-cases (str_eq d.bounce_type "complaint")) [
        | inl complaint ↦ (handled unsubscribed log user, ground arith, refl)
        | inr other ↦ (handled logged log none, ground arith, refl)
      ]
    ]
  ]

  -- If the log repository answers the update and the user lookup answers without changing anything,
  -- handling a bounce of whatever kind makes one update of the log, without the bounce's type and
  -- reason, and no other change; and it succeeds exactly if a log was found.
  pub handle_bounce_lem :
      (d : BounceData) (log : Option EmailLog) (s s' : S) (user : Option Text)
      → collections.find_one_and_update d.message_id (unclassified now) s ≡ returned log s'
      → collections.find_by_email d.email s' ≡ returned user s'
      → (r : BounceResult) × (handle_bounce collections now d s ≡ returned r s')
        × (r.success ≡ is_found log)
  unfolding handle_bounce record_bounce
  handle_bounce_lem d none s s' user updates reads =
      (not_found_result, ground (arith, bounce_update-bounce_fields now d), refl)
  handle_bounce_lem d (some log) s s' user updates reads =
      let (r, ran, ok) = classify_reads d log s' user reads in
      (r, ground (arith, bounce_update-bounce_fields now d), ok)
