-- ===== src/Middleware/Auth.antt =====
-- internal/middleware/auth.go: the session behind a bearer token.
pub mod Entering
use Prim.Native.Char.{code}
use ktauth.Prelude.{String, ◌&&◌, not, Option, none, some, ◌==◌, str_eq, if◌then◌else◌}
use ktauth.Errors.{Error}
use ktauth.Effects.{Result, ok, err, on, Op}
use ktauth.Redis.{Env}
use ktauth.Jwt.{Jwt, Claims, parse_token}
use ktauth.Gin.{Context, abort_with_status, Handler}
use ktauth.Logctx.{
  set_reason, set_reason_detail, missing_bearer_token, invalid_token, invalid_session,
  insufficient_role,
}

pub record SessionReader (W : Type 0) : Type 0 where
  pub get_session : String → String → Op W String

-- strings.HasPrefix and strings.TrimPrefix in one: what stands behind the prefix.
unfoldable pub strip_prefix : String → String → Option String
strip_prefix String.[] s = some s
strip_prefix (String.◌∷◌ p ps) String.[] = none
strip_prefix (String.◌∷◌ p ps) (String.◌∷◌ c cs) =
    let rest = strip_prefix ps cs in if code p == code c then rest else none

-- The role test, behind the keys "uuid" and "jti".
unfoldable pub check_role : String → Claims → Context → Context
unfolding set_reason
check_role require_role claims c =
    let c₁ = record c { uuid = claims.uuid; jti = claims.id } in
    if str_eq require_role "admin" && not (str_eq claims.role "admin")
    then abort_with_status 401 (set_reason insufficient_role c₁)
    else c₁

module _ {W : Type 0} (jwt : Jwt) (env : Env W) (reader : SessionReader W) where
  -- The session of the claims must be stored for their user.
  unfoldable pub check_session : String → Claims → Handler W
  unfolding check_role set_reason_detail
  check_session require_role claims c w =
      let (stored, w₁) = reader.get_session claims.uuid claims.id w in
      (
        on stored (λ e. abort_with_status 401 (set_reason_detail invalid_session (some e) c))
            (λ uuid.
              if not (str_eq claims.uuid uuid)
              then abort_with_status 401 (set_reason_detail invalid_session none c)
              else check_role require_role claims c),
        w₁,
      )

  -- VerifySession
  unfoldable pub verify_session : String → Handler W
  unfolding check_session strip_prefix parse_token set_reason
  verify_session require_role c w =
      elim (strip_prefix "Bearer " (c.request.header "Authorization")) [
        | none ↦ (abort_with_status 401 (set_reason missing_bearer_token c), w)
        | some token ↦
            on (parse_token jwt env token w)
              (λ e. (abort_with_status 401 (set_reason_detail invalid_token (some e) c), w))
              (λ claims. check_session require_role claims c w)
      ]
