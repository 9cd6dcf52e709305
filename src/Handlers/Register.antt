-- ===== src/Handlers/Register.antt =====
-- internal/handler/user_handler.go: RegisterUser, by an invitation token or an email code.
pub mod Accounts
use ktauth.Prelude.{
  String, Bool, false, ◌||◌, not, [], ◌∷◌, Option, none, some, str_eq, if◌then◌else◌,
}
use ktauth.Effects.{Result, ok, err, on, Op}
use ktauth.Admin.Rules.{or_empty}
use ktauth.Identity.Email.{Outcome, returned, panicked}
use ktauth.Gin.{Context, Body, json, str, respond, recovered, Handler}
use ktauth.Logctx.{
  set_reason, set_reason_detail, invalid_body, verify_code_failed, invalid_invite_token,
  missing_credentials, invalid_email_code, create_user_failed,
}
use ktauth.Handlers.EmailCodes.{EmailCodeManager, error_body, fail_with, not_configured}

pub record Register : Type 0 where
  pub token : Option String
  pub user : String
  pub password : String
  pub email : Option String
  pub code : Option String

-- The managers of a UserHandler that RegisterUser calls; the consumer answers with a plain bool.
pub record RegisterManagers (W : Type 0) : Type 0 where
  pub new_user : String → String → Option String → String → Op W String
  pub consume : String → W → Bool × W
  pub code_manager : Option (EmailCodeManager W)

abbrev pub unauthorized : Body
unauthorized = json (("status", str "unauthorized") ∷ [])

-- A pointer that is not nil and not to "".
abbrev pub is_given : Option String → Bool
is_given none = false
is_given (some s) = not (str_eq s "")

module _ {W : Type 0} (h : RegisterManagers W) where
  -- The account, once a credential was accepted.
  pub create : Register → Handler W
  unfolding set_reason_detail
  create req c w =
      let (created, w₁) = h.new_user req.user req.password req.email "user" w in
      (
        on created
            (λ e.
              respond 500 (error_body "Failed to create")
                (set_reason_detail create_user_failed (some e) c))
            (λ uuid. respond 201 (json (("your uuid", str uuid) ∷ [])) c),
        w₁,
      )

  -- The outcome of the email code.
  pub with_code : Register → Outcome Bool → Handler W
  unfolding create fail_with set_reason
  with_code req panicked c w = (recovered c, w)
  with_code req (returned (err e)) c w = (fail_with verify_code_failed e 500 c, w)
  with_code req (returned (ok valid)) c w =
      if valid
      then create req c w
      else (respond 401 unauthorized (set_reason invalid_email_code c), w)

  pub by_code : Register → Handler W
  unfolding with_code not_configured set_reason
  by_code req c w =
      if not (is_given req.email) || not (is_given req.code)
      then (
        respond 400 (error_body "token or email and code are required")
            (set_reason missing_credentials c),
        w,
      )
      else elim h.code_manager [
        | none ↦ (not_configured c, w)
        | some m ↦
            (let (valid, w₁) = m.verify_code (or_empty req.email) (or_empty req.code) w in
              with_code req valid c w₁)
      ]

  pub by_token : Register → Handler W
  unfolding create set_reason
  by_token req c w =
      let (consumed, w₁) = h.consume (or_empty req.token) w in
      if consumed
      then create req c w₁
      else (respond 401 unauthorized (set_reason invalid_invite_token c), w₁)

  -- RegisterUser
  unfoldable pub register_user : (Context → Result Register) → Handler W
  unfolding by_token by_code fail_with
  register_user bind c w =
      on (bind c) (λ e. (fail_with invalid_body e 400 c, w))
        (λ req. if is_given req.token then by_token req c w else by_code req c w)
