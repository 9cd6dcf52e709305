-- ===== src/Identity/Email/Sending.antt =====
-- internal/service/identity/email.go, SendCode: when a code is sent, stored and followed by a cooldown.
use Prim.Native.String.{◌++◌}
use ktauth.Prelude.{
  String, Bool, true, false, Bool-cases, none, some, ◌≡◌, ◌≢◌, refl, inl, inr, str_eq, eq_iff,
  arith, if◌then◌else◌,
}
use ktauth.Errors.{Error, errorf}
use ktauth.Effects.{Result, ok, err, Result-cases}
use ktauth.Redis.{Env}
use ktauth.Identity.Email.Message.{mail_message}
use ktauth.Identity.Email.Code.{Random, generate_code}
use ktauth.Identity.Email.{
  Address, Mailer, EmailService, Outcome, returned, login, deliver, send_new_code, send_code,
}

module _ {W : Type 0} (mailer : Mailer W) (random : Random W) (env : Env W)
    (s : EmailService W) where
  -- The mail with a code to an address, in a world; there is no login where no user name is set.
  abbrev pub mailed : Address → String → W → Result (Unit {0}) × W
  mailed to code w =
      let (id, w₁) = env.new_uuid w in
      mailer.send_mail (s.host ++ (":" ++ s.port))
        (if str_eq s.username "" then none else some (s.username, s.password, s.host))
        s.from.address to.address (mail_message s.from.text to.text (mailer.date w) id s.host code)
        w₁

  -- The mail, the stored code and the cooldown, up to the first failure.
  pub data Delivery (to : Address) (email code : String) (w : W) (out : Result (Unit {0}) × W)
      : Type 0 where
    delivered :
        (w₁ w₂ w₃ : W)
        → mailed to code w ≡ (ok tt, w₁)
        → s.code_store.set email code w₁ ≡ (ok tt, w₂)
        → s.cd_store.set email w₂ ≡ (ok tt, w₃)
        → out ≡ (ok tt, w₃)
        → Delivery to email code w out
    not_mailed :
        (e : Error) (w₁ : W)
        → mailed to code w ≡ (err e, w₁)
        → out ≡ (err e, w₁)
        → Delivery to email code w out
    not_stored :
        (e : Error) (w₁ w₂ : W)
        → mailed to code w ≡ (ok tt, w₁)
        → s.code_store.set email code w₁ ≡ (err e, w₂)
        → out ≡ (err e, w₂)
        → Delivery to email code w out
    not_cooled :
        (e : Error) (w₁ w₂ w₃ : W)
        → mailed to code w ≡ (ok tt, w₁)
        → s.code_store.set email code w₁ ≡ (ok tt, w₂)
        → s.cd_store.set email w₂ ≡ (err e, w₃)
        → out ≡ (err e, w₃)
        → Delivery to email code w out

  pub data Sending (email : String) (w : W) (out : Outcome (Unit {0}) × W) : Type 0 where
    attempted :
        (to : Address) (code : String) (w₁ w₂ : W) (r : Result (Unit {0}) × W)
        → mailer.parse_address email ≡ ok to
        → to.address ≡ email
        → s.cd_store.cd email w ≡ (ok false, w₁)
        → generate_code random 6 w₁ ≡ (ok code, w₂)
        → Delivery to email code w₂ r
        → out ≡ (returned r.0, r.1)
        → Sending email w out
    invalid :
        ((to : Address) → mailer.parse_address email ≡ ok to → to.address ≢ email)
        → out ≡ (returned (err (errorf "invalid email address")), w)
        → Sending email w out
    cooling :
        (w₁ : W)
        → s.cd_store.cd email w ≡ (ok true, w₁)
        → out ≡ (returned (err (errorf "verification code recently sent")), w₁)
        → Sending email w out
    cooldown_unknown :
        (e : Error) (w₁ : W)
        → s.cd_store.cd email w ≡ (err e, w₁)
        → out ≡ (returned (err e), w₁)
        → Sending email w out
    no_code :
        (e : Error) (w₁ w₂ : W)
        → s.cd_store.cd email w ≡ (ok false, w₁)
        → generate_code random 6 w₁ ≡ (err e, w₂)
        → out ≡ (returned (err e), w₂)
        → Sending email w out

  module _ (to : Address) (email code : String) (w : W) where
    cooled :
        (w₁ w₂ : W) (res : Result (Unit {0})) (w₃ : W)
        → mailed to code w ≡ (ok tt, w₁)
        → s.code_store.set email code w₁ ≡ (ok tt, w₂)
        → s.cd_store.set email w₂ ≡ (res, w₃)
        → Delivery to email code w (deliver mailer random env s to email code w)
    unfolding deliver login
    cooled w₁ w₂ (ok tt) w₃ m c e = delivered w₁ w₂ w₃ m c e (rw (m, c, e) refl)
    cooled w₁ w₂ (err x) w₃ m c e = not_cooled x w₁ w₂ w₃ m c e (rw (m, c, e) refl)

    stored :
        (w₁ : W) (res : Result (Unit {0})) (w₂ : W)
        → mailed to code w ≡ (ok tt, w₁)
        → s.code_store.set email code w₁ ≡ (res, w₂)
        → Delivery to email code w (deliver mailer random env s to email code w)
    unfolding deliver login
    stored w₁ (ok tt) w₂ m e = cooled w₁ w₂ _ _ m e refl
    stored w₁ (err x) w₂ m e = not_stored x w₁ w₂ m e (rw (m, e) refl)

    deliver-Delivery :
        (res : Result (Unit {0})) (w₁ : W)
        → mailed to code w ≡ (res, w₁)
        → Delivery to email code w (deliver mailer random env s to email code w)
    unfolding deliver login
    deliver-Delivery (ok tt) w₁ e = stored w₁ _ _ e refl
    deliver-Delivery (err x) w₁ e = not_mailed x w₁ e (rw e refl)

  module _ (to : Address) (email : String) (w : W) (parsed : mailer.parse_address email ≡ ok to)
      (same : to.address ≡ email) where
    abbrev out_of : W → Outcome (Unit {0}) × W
    out_of w = (
      returned (send_new_code mailer random env s to email w).0,
      (send_new_code mailer random env s to email w).1,
    )

    drawn :
        (w₁ : W) (res : Result String) (w₂ : W)
        → s.cd_store.cd email w ≡ (ok false, w₁)
        → generate_code random 6 w₁ ≡ (res, w₂)
        → Sending email w (out_of w)
    unfolding send_new_code
    drawn w₁ (ok code) w₂ ready e =
        attempted to code w₁ w₂ _ parsed same ready e (deliver-Delivery to email code w₂ _ _ refl)
          (rw (ready, e) refl)
    drawn w₁ (err x) w₂ ready e = no_code x w₁ w₂ ready e (rw (ready, e) refl)

    send_new_code-Sending :
        (res : Result Bool) (w₁ : W)
        → s.cd_store.cd email w ≡ (res, w₁)
        → Sending email w (out_of w)
    unfolding send_new_code
    send_new_code-Sending (ok true) w₁ e = cooling w₁ e (rw e refl)
    send_new_code-Sending (ok false) w₁ e = drawn w₁ _ _ e refl
    send_new_code-Sending (err x) w₁ e = cooldown_unknown x w₁ e (rw e refl)

  -- With a configured service, SendCode sends a code only to a bare address that is not cooling
  -- down, stores it only after the mail was handed over, and starts the cooldown only after the
  -- code was stored; it stops at the first failure and returns that error.
  pub send_code-Sending :
      (email : String) (w : W) → Sending email w (send_code mailer random env (some s) email w)
  unfolding send_code
  send_code-Sending email w = elim (Result-cases (mailer.parse_address email)) [
    | inr (x, bad) ↦ rw bad (invalid (λ to good _. cc) refl)
    | inl (to, parsed) ↦ elim (Bool-cases (str_eq to.address email)) [
      | inl same ↦
          rw (parsed, same)
            (send_new_code-Sending to email w parsed ((eq_iff to.address email).0 same) _ _ refl)
      | inr other ↦
          rw (parsed, other)
            (invalid
              (λ to' good e. let one : to' ≡ to = cc in ground (arith, eq_iff to.address email))
              refl)
    ]
  ]
