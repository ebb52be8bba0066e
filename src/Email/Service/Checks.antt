-- ===== src/Email/Service/Checks.antt =====
-- The checks before an email is logged and sent, and what a verification email is made of.
use mern_auth.Prelude.{
  ◌++◌, ◌≡◌, refl, true, false, ◌||◌, Option, some, String, arith, Bool-cases, inl, inr, str_eq,
}
use mern_auth.Text.{Text, codes}
use mern_auth.Errors.{Error, plain}
use mern_auth.Exec.{returned, raised, state_of}
use mern_auth.Email.Provider.{MailOptions}
use mern_auth.Email.Service.{
  Mailer, Content, SendEmailParams, EmailUser, is_blank, content, checked_content, send_email,
  TemplateData, send_verification_email, verification_url, verification_params, deliver,
  mail_options,
}
use mern_auth.Email.Service.Delivery.{entry_of, Passes, logged, send_email_run}

module _ {S : Type 0} (mailer : Mailer S) where
  -- The mailer with another default subject.
  abbrev pub with_default : Option String → Mailer S
  with_default d = record mailer { config = record mailer.config { default_subject = d } }

  -- The configured default subject has no effect on what the checks let pass, or on how they fail.
  pub default_subject_unused :
      (d : Option String) (c : Content) (s : S)
      → checked_content (with_default d) c s ≡ checked_content mailer c s
  unfolding checked_content
  default_subject_unused d c s = ground arith

  -- An email whose content, after its template, lacks the html or the subject is refused, and the
  -- state is the one after the template: nothing is logged and nothing is sent.
  pub send_email_unsendable :
      (params : SendEmailParams) (c : Content) (s s₀ : S)
      → content mailer params s ≡ returned c s₀
      → (is_blank c.html || is_blank c.subject) ≡ true
      → (e : Error) × (send_email mailer params s ≡ raised e s₀)
  unfolding send_email checked_content
  send_email_unsendable params c s s₀ made bad = elim (Bool-cases (is_blank c.html)) [
    | inl h ↦ (plain "Email must have HTML content or a valid template", ground arith)
    | inr h ↦ (plain "Email must have a subject", ground arith)
  ]

  -- The page of the web client that verifies the token.
  abbrev pub link : Text → Text
  link token = (mailer.config.client_url ++ codes "/verify-email?token=") ++ token

  abbrev pub template_data : EmailUser → Text → String → TemplateData
  template_data user token locale = record {
    subject = some (mailer.translate locale "email:verification.subject");
    name = some user.name;
    verification_url = some (link token);
    expiry_minutes = some (mailer.config.verification_token_expires_in, 60);
  }

  -- The mail that a verification email is.
  abbrev pub verification_mail : EmailUser → Text → String → String → MailOptions
  verification_mail user token locale html = record {
    sender = mailer.config.email_from;
    recipient = user.email;
    subject = mailer.translate locale "email:verification.subject";
    html = html;
    text =
        mailer.translate_text locale "email:verification.text" user.name (link token)
          (mailer.config.verification_token_expires_in, 60);
  }

  passes :
      (user : EmailUser) (token : Text) (locale : String) (preferred : Option String)
      (html : String) (s : S)
      → str_eq html "" ≡ false
      → str_eq (mailer.translate locale "email:verification.subject") "" ≡ false
      → Passes mailer
          (verification_params mailer user token locale preferred html)
          s
          html
          (mailer.translate locale "email:verification.subject")
          s
  unfolding content checked_content verification_params
  passes user token locale preferred html s h t = ground arith

  -- The translated text for this locale: the name and the link stand in it as they are, and the
  -- rest depends on neither the user nor the token.
  abbrev pub Interpolates : String → (Text → Text) → Text → Type 0
  Interpolates locale before after =
      (name : String) (url : Text)
      → mailer.translate_text locale "email:verification.text" name url
          (mailer.config.verification_token_expires_in, 60)
        ≡ before (codes name) ++ (url ++ after)

  -- With a template that compiles to html that is not empty, a translated subject that is not
  -- empty, and a translated text in which the name and the link stand as they are: a verification
  -- email is handed to delivery with the user's own address as its recipient, the compiled html,
  -- and a text in which the web client's address, "/verify-email?token=" and the token stand one
  -- after the other.
  pub send_verification_email-deliver :
      (user : EmailUser) (token : Text) (locale : String) (preferred : Option String)
      (html : String) (before : Text → Text) (after : Text) (s s₀ : S)
      → mailer.compile_template "verification" (template_data user token locale) s
        ≡ returned html s₀
      → str_eq html "" ≡ false
      → str_eq (mailer.translate locale "email:verification.subject") "" ≡ false
      → Interpolates locale before after
      → (mail : MailOptions) × (log : Option String) × (s₁ : S) × (send_verification_email mailer
            user token locale preferred s
          ≡ deliver mailer mail preferred log s₁)
        × (mail.recipient ≡ user.email)
        × (mail.html ≡ html)
        × (mail.text
            ≡ before (codes user.name)
              ++ (((mailer.config.client_url ++ codes "/verify-email?token=") ++ token) ++ after))
  unfolding send_verification_email mail_options verification_params verification_url
  send_verification_email-deliver user token locale preferred html before after s s₀ compiled h t
        interpolates =
      let params = verification_params mailer user token locale preferred html in
      let subject = mailer.translate locale "email:verification.subject" in
      (
        verification_mail user token locale html,
        entry_of mailer (logged mailer params html subject s₀),
        state_of (logged mailer params html subject s₀),
        ground (
          arith,
          send_email_run mailer params html subject s₀ s₀
              (passes user token locale preferred html s₀ h t),
        ),
        refl,
        refl,
        interpolates user.name (link token),
      )
