-- ===== src/Handlers/EmailCodes.antt =====
-- internal/handler/user_handler.go: SendEmailCode and VerifyEmailCode.
pub mod Spent
use ktauth.Prelude.{
  ℕ, String, Bool, true, false, List, [], ◌∷◌, Option, none, some, str_eq, if◌then◌else◌,
}
use ktauth.Errors.{Error, message}
use ktauth.Effects.{Result, ok, err, on}
use ktauth.Identity.Email.{Outcome, returned, panicked}
use ktauth.Gin.{Context, Body, json, str, bool, respond, recovered, Handler}
use ktauth.Logctx.{
  Reason, set_reason, set_reason_detail, smtp_not_configured, invalid_body, code_recently_sent,
  invalid_email, send_code_failed, code_required, verify_code_failed, invalid_code,
}

-- EmailCodeManager; a method of a nil *EmailService may panic.
pub record EmailCodeManager (W : Type 0) : Type 0 where
  pub send_code : String → W → Outcome (Unit {0}) × W
  pub verify_code : String → String → W → Outcome Bool × W

pub record EmailCode : Type 0 where
  pub email : String
  pub code : String

abbrev pub error_body : String → Body
error_body text = json (("error", str text) ∷ [])

-- `logctx.SetReasonDetail(c, …, err); c.JSON(…, gin.H{"error": err.Error()})`
unfoldable pub fail_with : Reason → Error → (code : ℕ) → Context → Context
unfolding set_reason_detail message
fail_with reason e code c =
    respond code (error_body (message e)) (set_reason_detail reason (some e) c)

unfoldable pub not_configured : Context → Context
unfolding set_reason
not_configured c =
    respond 500 (error_body "SMTP is not configured") (set_reason smtp_not_configured c)

-- The switch on the text of the error.
unfoldable pub send_failed : Error → Context → Context
unfolding fail_with
send_failed e c =
    if str_eq (message e) "verification code recently sent"
    then fail_with code_recently_sent e 429 c
    else if str_eq (message e) "invalid email address"
    then fail_with invalid_email e 400 c
    else fail_with send_code_failed e 500 c

module _ {W : Type 0} (manager : Option (EmailCodeManager W))
    (bind : Context → Result EmailCode) where
  send_bound : EmailCodeManager W → EmailCode → Handler W
  unfolding send_failed
  send_bound m req c w =
      let (sent, w₁) = m.send_code req.email w in
      (
        elim sent [
          | panicked ↦ recovered c
          | returned res ↦
              on res (λ e. send_failed e c)
                (λ u. respond 200 (json (("message", str "verification code sent") ∷ [])) c)
        ],
        w₁,
      )

  -- SendEmailCode
  unfoldable pub send_email_code : Handler W
  unfolding send_bound fail_with not_configured
  send_email_code c w = elim manager [
    | none ↦ (not_configured c, w)
    | some m ↦ on (bind c) (λ e. (fail_with invalid_body e 400 c, w)) (λ req. send_bound m req c w)
  ]

  pub verified : Outcome Bool → Context → Context
  unfolding fail_with set_reason
  verified (panicked) c = recovered c
  verified (returned (err e)) c = fail_with verify_code_failed e 500 c
  verified (returned (ok valid)) c =
      if valid
      then respond 200 (json (("valid", bool true) ∷ [])) c
      else respond 400 (json (("valid", bool false) ∷ [])) (set_reason invalid_code c)

  verify_bound : EmailCodeManager W → EmailCode → Handler W
  unfolding verified
  verify_bound m req c w =
      if str_eq req.code ""
      then (respond 400 (error_body "code is required") (set_reason code_required c), w)
      else (let (valid, w₁) = m.verify_code req.email req.code w in (verified valid c, w₁))

  -- VerifyEmailCode
  unfoldable pub verify_email_code : Handler W
  unfolding verify_bound fail_with not_configured
  verify_email_code c w = elim manager [
    | none ↦ (not_configured c, w)
    | some m ↦
        on (bind c) (λ e. (fail_with invalid_body e 400 c, w)) (λ req. verify_bound m req c w)
  ]

-- NewUserHandler's optional manager: the first of the variadic arguments, or a nil interface.
abbrev pub first_manager : {W : Type 0} → List (EmailCodeManager W) → Option (EmailCodeManager W)
first_manager [] = none
first_manager (m ∷ ms) = some m
