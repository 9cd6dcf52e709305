-- ===== src/App/Smtp.antt =====
-- cmd/ktauth/main.go, internal/handler/user_handler.go and internal/service/identity/email.go: what is
-- answered where SMTP is not configured.
use ktauth.Prelude.{
  String, Bool, true, none, some, ◌||◌, Bool-cases, eq_iff, str_eq, ◌≡◌, ◌∙◌, refl, ap, inl, inr,
  sym, subst,
}
use ktauth.Errors.{Error, errorf}
use ktauth.Effects.{ok, err, Result-cases}
use ktauth.Identity.Email
use ktauth.Identity.Email.{Address, Outcome, EmailService, send_code, returned, panicked}
use ktauth.Handlers.EmailCodes.{
  EmailCode, EmailCodeManager, send_email_code, send_failed, fail_with,
}
use ktauth.Gin.{Context, recovered}
use ktauth.App.{Packages, Settings, managers, code_manager, email_service}

-- NewEmailService refuses to make a service of these.
abbrev pub lacks_smtp : Settings → Bool
lacks_smtp s = str_eq s.smtp_host "" || (str_eq s.smtp_port "" || str_eq s.smtp_from "")

module _ {W : Type 0} (p : Packages W) where
  -- The text is an address without a name.
  pub record IsBare (email : String) : Type 0 where
    pub to : Address
    pub parsed : p.mailer.parse_address email ≡ ok to
    pub bare : to.address ≡ email

  -- The answers of a server that sends no codes.
  pub data Unsent (c : Context) (c' : Context) : Type 0 where
    malformed : (e : Error) → p.bind_code c ≡ err e → c'.status ≡ 400 → Unsent c c'
    invalid :
        (req : EmailCode)
        → p.bind_code c ≡ ok req
        → ¬ IsBare req.email
        → c'.status ≡ 400
        → Unsent c c'
    panics :
        (req : EmailCode)
        → p.bind_code c ≡ ok req
        → IsBare req.email
        → c' ≡ recovered c
        → Unsent c c'

module _ {W : Type 0} (p : Packages W) (s : Settings) where
  unset_service : lacks_smtp s ≡ true → email_service p s ≡ none
  unfolding Email.new_email_service
  unset_service lacking = rw lacking refl

  -- The nil service tests the address before it is asked.
  data Sent (email : String) (w : W) (out : Outcome (Unit {0}) × W) : Type 0 where
    refused :
        ¬ IsBare p email
        → out ≡ (returned (err (errorf "invalid email address")), w)
        → Sent email w out
    crashed : IsBare p email → out ≡ (panicked, w) → Sent email w out

  nil-Sent :
      (email : String) (w : W) → Sent email w (send_code p.mailer p.random p.env none email w)
  unfolding send_code
  nil-Sent email w = elim (Result-cases (p.mailer.parse_address email)) [
    | inr (x, unread) ↦ rw unread (refused (λ b. cc (b.parsed)) refl)
    | inl (to, parsed) ↦ elim (Bool-cases (str_eq to.address email)) [
      | inl same ↦
          let bare = (eq_iff to.address email).0 same in
          rw (parsed, same) (crashed (record { to = to; parsed = parsed; bare = bare }) refl)
      | inr differ ↦
          rw (parsed, differ)
            (refused
              (λ b.
                let one : b.to ≡ to = cc (b.parsed) in
                let same =
                  (eq_iff to.address email).1
                    (sym (ap (λ (a : Address). a.address) one) ∙ b.bare) in
                absurd (cc))
              refl)
    ]
  ]

  handler-Unsent :
      (m : EmailCodeManager W) (c : Context) (w : W) (req : EmailCode)
      → p.bind_code c ≡ ok req
      → Sent req.email w (m.send_code req.email w)
      → Unsent p c (send_email_code (some m) p.bind_code c w).0
        × ((send_email_code (some m) p.bind_code c w).1 ≡ w)
  unfolding send_email_code send_failed fail_with
  handler-Unsent m c w req bound (refused unfit e) =
      rw (bound, e) (invalid req bound unfit refl, refl)
  handler-Unsent m c w req bound (crashed fit e) = rw (bound, e) (panics req bound fit refl, refl)

  -- With the managers of main, where SMTP_HOST, SMTP_PORT or SMTP_FROM is not set: SendEmailCode
  -- panics on exactly those requests that give an address without a name, and the answer is the
  -- 500 of the recovery; to all others it answers 400. Nothing changes, and it never answers that
  -- SMTP is not configured.
  pub send_email_code-Unsent :
      (c : Context) (w : W)
      → lacks_smtp s ≡ true
      → Unsent p c (send_email_code (managers p s) p.bind_code c w).0
        × ((send_email_code (managers p s) p.bind_code c w).1 ≡ w)
  unfolding send_email_code fail_with
  send_email_code-Unsent c w lacking = elim (Result-cases (p.bind_code c)) [
    | inr (e, unread) ↦ rw unread (malformed e unread refl, refl)
    | inl (req, bound) ↦ handler-Unsent (code_manager p s) c w req bound (
        subst (λ service. Sent req.email w (send_code p.mailer p.random p.env service req.email w))
          (sym (unset_service lacking)) (nil-Sent req.email w))
  ]
