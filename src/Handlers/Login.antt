-- ===== src/Handlers/Login.antt =====
-- internal/handler/user_handler.go: LoginUser and LogoutUser.
pub mod Credentials
pub mod Lifecycle
pub mod Held
pub mod Registered
use ktauth.Prelude.{String, [], ◌∷◌, some, str_eq, if◌then◌else◌}
use ktauth.Effects.{Result, ok, err, on, Op}
use ktauth.Redis.{Env}
use ktauth.Model.{User}
use ktauth.Jwt.{Jwt, sign_token}
use ktauth.Identity.Account.{Bcrypt, verify_password}
use ktauth.Gin.{Context, json, str, plain, respond, Handler}
use ktauth.Logctx.{
  set_reason, set_reason_detail, invalid_body, user_lookup_failed, invalid_credentials,
  sign_token_failed, create_session_failed, delete_session_failed,
}
use ktauth.Handlers.EmailCodes.{fail_with}

pub record Login : Type 0 where
  pub user : String
  pub password : String

pub record SessionManager (W : Type 0) : Type 0 where
  pub create_session : String → String → Op W (Unit {0})
  pub del_session : String → String → Op W (Unit {0})

module _ {W : Type 0} (jwt : Jwt) (env : Env W) (bcrypt : Bcrypt W) (sessions : SessionManager W)
    (get_user_by_name : String → Op W User) where
  -- The session and the token, once the password fits.
  unfoldable pub open_session : User → Handler W
  unfolding set_reason_detail sign_token
  open_session user c w =
      let (signed, w₁) = sign_token jwt env user.uuid user.name user.role w in
      on signed
        (λ e.
          (respond 500 (plain "Server error") (set_reason_detail sign_token_failed (some e) c), w₁))
        (λ token_jti.
          let (created, w₂) = sessions.create_session user.uuid token_jti.1 w₁ in
          (
            on created
                (λ e.
                  respond 500 (plain "Server error")
                    (set_reason_detail create_session_failed (some e) c))
                (λ u.
                  if str_eq (c.request.query "format") "string"
                  then respond 200 (plain token_jti.0) c
                  else respond 200 (json (("token", str token_jti.0) ∷ [])) c),
            w₂,
          ))

  check_user : Login → Result User → Handler W
  unfolding open_session set_reason verify_password
  check_user req (err e) c w = (
    respond 401 (plain "Incorrect password or username...")
        (set_reason_detail user_lookup_failed (some e) c),
    w,
  )
  check_user req (ok user) c w =
      if verify_password bcrypt user.password_hash req.password then open_session user c w else (
        respond 401 (plain "Incorrect password or username...") (set_reason invalid_credentials c),
        w,
      )

  -- LoginUser
  unfoldable pub login_user : (Context → Result Login) → Handler W
  unfolding check_user fail_with
  login_user bind c w =
      on (bind c) (λ e. (fail_with invalid_body e 400 c, w))
        (λ req. let (user, w₁) = get_user_by_name req.user w in check_user req user c w₁)

-- LogoutUser
unfoldable pub logout_user : {W : Type 0} → SessionManager W → Handler W
unfolding set_reason_detail
logout_user sessions c w =
    let (deleted, w₁) = sessions.del_session c.uuid c.jti w in
    (
      on deleted
          (λ e.
            respond 500 (plain "Server error") (set_reason_detail delete_session_failed (some e) c))
          (λ u. respond 200 (plain "OK") c),
      w₁,
    )
