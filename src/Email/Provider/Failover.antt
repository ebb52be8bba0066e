-- ===== src/Email/Provider/Failover.antt =====
-- The providers that a delivery tries, as a relation.
use mern_auth.Prelude.{Option, ◌≡◌, refl, ap, ◌∙◌, arith, List, [], ◌∷◌, ◌++◌, String, ◌↔◌}
use mern_auth.Errors.{Error}
use mern_auth.Exec.{Outcome, returned, raised}
use mern_auth.Email.Provider.{
  Option, MailOptions, EmailResult, Provider, Failures, all_failed, try_providers,
  send_with_failover, providers_to_try,
}
use mathlib.Core.List.{append_assoc, append-nil}

module _ {S : Type 0} (stringify : Failures → String) (mail : MailOptions) where
  -- Providers that fail one after another, from a state to a state, with their errors.
  pub data Fail : List (Provider S) → S → Failures → S → Type 0 where
    done : {s : S} → Fail [] s [] s
    fail :
        {p : Provider S} {ps : List (Provider S)} {e : Error} {es : Failures} {s s₁ s₂ : S}
        → p.send mail s ≡ raised e s₁
        → Fail ps s₁ es s₂
        → Fail (p ∷ ps) s ((p.name, e) ∷ es) s₂

  pub try_after_Fail :
      {before : List (Provider S)} {s s' : S} {es : Failures} (rest : List (Provider S))
      (old : Failures)
      → Fail before s es s'
      → try_providers stringify mail (before ++ rest) old s
        ≡ try_providers stringify mail rest (old ++ es) s'
  unfolding try_providers
  try_after_Fail rest old done = rw append-nil
  try_after_Fail rest old (fail {p} {ps} {e} {es} {s} {s₁} {s₂} sent more) = ground (
    arith,
    try_after_Fail rest (old ++ (p.name, e) ∷ []) more,
    append_assoc old ((p.name, e) ∷ []) es,
  )

  -- The provider that delivered, and those before it.
  pub record Delivered (ps : List (Provider S)) (s : S) (r : EmailResult) (s' : S) : Type 0 where
    pub before : List (Provider S)
    pub winner : Provider S
    pub after : List (Provider S)
    pub failures : Failures
    pub between : S
    pub split : ps ≡ before ++ winner ∷ after
    pub failed : Fail before s failures between
    pub sent : winner.send mail between ≡ returned r s'

  try_returned :
      (ps : List (Provider S)) (old : Failures) (s s' : S) (r : EmailResult)
      → try_providers stringify mail ps old s ≡ returned r s'
      → Delivered ps s r s'
  unfolding try_providers
  try_returned [] old s s' r h = cc
  try_returned (p ∷ ps) old s s' r h =
      first (p.send mail s) refl (λ e s₁. try_returned ps (old ++ (p.name, e) ∷ []) s₁ s' r)
    where
      first :
          (o : Outcome S EmailResult)
          → p.send mail s ≡ o
          → ((e : Error) (s₁ : S)
              → try_providers stringify mail ps (old ++ (p.name, e) ∷ []) s₁ ≡ returned r s'
              → Delivered ps s₁ r s')
          → Delivered (p ∷ ps) s r s'
      first (returned r' s₁) e ih = record {
        before = [];
        winner = p;
        after = ps;
        failures = [];
        between = s;
        split = refl;
        failed = done;
        sent = ground arith;
      }
      first (raised x s₁) e ih =
          let d = ih x s₁ (ground arith) in
          record {
            before = p ∷ d.before;
            winner = d.winner;
            after = d.after;
            failures = (p.name, x) ∷ d.failures;
            between = d.between;
            split = ap (λ l. p ∷ l) d.split;
            failed = fail e d.failed;
            sent = d.sent;
          }

  try_raised :
      (ps : List (Provider S)) (old : Failures) (s s' : S) (x : Error)
      → try_providers stringify mail ps old s ≡ raised x s'
      → (es : Failures) × Fail ps s es s' × (x ≡ all_failed stringify (old ++ es))
  unfolding try_providers
  try_raised [] old s s' x h =
      let stays : s ≡ s' = ground arith in
      let same : x ≡ all_failed stringify old = ground arith in
      ([], rw (← stays) done, rw append-nil same)
  try_raised (p ∷ ps) old s s' x h =
      first (p.send mail s) refl (λ e s₁. try_raised ps (old ++ (p.name, e) ∷ []) s₁ s' x)
    where
      first :
          (o : Outcome S EmailResult)
          → p.send mail s ≡ o
          → ((e : Error) (s₁ : S)
              → try_providers stringify mail ps (old ++ (p.name, e) ∷ []) s₁ ≡ raised x s'
              → (es : Failures) × Fail ps s₁ es s'
                × (x ≡ all_failed stringify ((old ++ (p.name, e) ∷ []) ++ es)))
          → (es : Failures) × Fail (p ∷ ps) s es s' × (x ≡ all_failed stringify (old ++ es))
      first (returned r s₁) e ih = absurd (ground arith)
      first (raised y s₁) e ih =
          let (es, failed, same) = ih y s₁ (ground arith) in
          ((p.name, y) ∷ es, fail e failed, rw append_assoc at same)

  try_Fail :
      {ps : List (Provider S)} {s s' : S} {es : Failures} (old : Failures)
      → Fail ps s es s'
      → try_providers stringify mail ps old s ≡ raised (all_failed stringify (old ++ es)) s'
  unfolding try_providers
  try_Fail old done = rw append-nil
  try_Fail old (fail {p} {ps} {e} {es} {s} {s₁} {s₂} sent more) =
      ground
        (arith, try_Fail (old ++ (p.name, e) ∷ []) more, append_assoc old ((p.name, e) ∷ []) es)

  try_winner :
      (p : Provider S) (ps : List (Provider S)) (old : Failures) (s s' : S) (r : EmailResult)
      → p.send mail s ≡ returned r s'
      → try_providers stringify mail (p ∷ ps) old s ≡ returned r s'
  unfolding try_providers
  try_winner p ps old s s' r h = ground arith

  -- Delivery returns a result exactly if some provider, in the order tried, returned it after each
  -- provider before it was tried and failed.
  pub send_with_failover_returned :
      (providers : List (Provider S)) (preferred : Option String) (s s' : S) (r : EmailResult)
      → (send_with_failover stringify providers mail preferred s ≡ returned r s')
        ↔ Delivered (providers_to_try preferred providers) s r s'
  unfolding send_with_failover
  send_with_failover_returned providers preferred s s' r = (
    try_returned (providers_to_try preferred providers) [] s s' r,
    λ d.
        ap (λ l. try_providers stringify mail l [] s) d.split
        ∙ try_after_Fail (d.winner ∷ d.after) [] d.failed
        ∙ try_winner d.winner d.after d.failures d.between s' r d.sent,
  )

  -- Delivery fails with an error exactly if each provider was tried and failed and the error lists
  -- the providers' errors in the order tried.
  pub send_with_failover_raised :
      (providers : List (Provider S)) (preferred : Option String) (s s' : S) (x : Error)
      → (send_with_failover stringify providers mail preferred s ≡ raised x s') ↔ (
          (es : Failures) × Fail (providers_to_try preferred providers) s es s'
          × (x ≡ all_failed stringify es))
  unfolding send_with_failover
  send_with_failover_raised providers preferred s s' x = (
    try_raised (providers_to_try preferred providers) [] s s' x,
    λ given. rw given.2 (try_Fail [] given.1),
  )
