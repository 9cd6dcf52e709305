-- ===== src/Routes.antt =====
-- internal/router and the routes of cmd/ktauth/main.go: the handlers of each method and path.
pub mod Gate
pub mod AdminOnly
pub mod Causes
pub mod Visit
use ktauth.Prelude.{String, List, [], ◌∷◌}
use ktauth.Redis.{Env}
use ktauth.Jwt.{Jwt}
use ktauth.Gin.{Context, set_status, Handler}
use ktauth.Gin.Engine.{Engine}
use ktauth.Middleware.CheckIp.{IpRuleQuerier, acl}
use ktauth.Middleware.RateLimit.{RateLimiter, IpRuleAdder, rate_limit}
use ktauth.Middleware.Auth.{SessionReader, verify_session}

pub record Route (W : Type 0) : Type 0 where
  pub method : String
  pub path : String
  pub handlers : List (Handler W)

-- What the middlewares of main.go are built from.
pub record Guards (W : Type 0) : Type 0 where
  pub querier : IpRuleQuerier W
  pub limiter : RateLimiter W
  pub adder : IpRuleAdder W
  pub sessions : SessionReader W
  pub jwt : Jwt
  pub env : Env W

-- `func(ctx *gin.Context) { ctx.Status(http.StatusNoContent) }`
unfoldable pub no_content : {W : Type 0} → Handler W
no_content c w = (set_status 204 c, w)

module _ {W : Type 0} (g : Guards W) where
  -- The handlers of a public route: the address is not blacklisted and within its limit.
  abbrev pub public_chain : Handler W → List (Handler W)
  public_chain h = acl g.querier 0 ∷ rate_limit g.limiter g.adder ∷ h ∷ []

  -- Of a route for users with a session.
  abbrev pub user_chain : Handler W → List (Handler W)
  user_chain h = acl g.querier 0 ∷ verify_session g.jwt g.env g.sessions "" ∷ h ∷ []

  -- Of a route for administrators on whitelisted addresses.
  abbrev pub admin_chain : Handler W → List (Handler W)
  admin_chain h = acl g.querier 1 ∷ verify_session g.jwt g.env g.sessions "admin" ∷ h ∷ []

  abbrev pub strict_chain : Handler W → List (Handler W)
  strict_chain h = acl g.querier 1 ∷ h ∷ []

  -- The gateway's routes in main.go
  unfoldable pub gateway_routes : List (Route W)
  gateway_routes =
      record { method = "GET"; path = "/kt/0"; handlers = public_chain no_content }
      ∷ record { method = "GET"; path = "/kt/1"; handlers = strict_chain no_content }
      ∷ []

  -- RegisterTokenRouter, for restock, flush, get one and get all
  unfoldable pub token_routes : Handler W → Handler W → Handler W → Handler W → List (Route W)
  token_routes restock flush one all =
      record { method = "GET"; path = "/api/tokens/restock"; handlers = admin_chain restock }
      ∷ record { method = "DELETE"; path = "/api/tokens/flush"; handlers = admin_chain flush }
      ∷ record { method = "GET"; path = "/api/tokens"; handlers = admin_chain one }
      ∷ record { method = "GET"; path = "/api/tokens/all"; handlers = admin_chain all }
      ∷ []

  -- RegisterIPRouter and RegisterUserManageRouter
  unfoldable pub admin_routes : Handler W → Handler W → Handler W → Handler W → List (Route W)
  admin_routes list delete add users =
      record { method = "GET"; path = "/api/ips"; handlers = admin_chain list }
      ∷ record { method = "DELETE"; path = "/api/ips"; handlers = admin_chain delete }
      ∷ record { method = "POST"; path = "/api/ips/new"; handlers = admin_chain add }
      ∷ record { method = "GET"; path = "/api/users"; handlers = admin_chain users }
      ∷ []

  -- RegisterUserRouter
  unfoldable pub user_routes :
      Handler W → Handler W → Handler W → Handler W → Handler W → List (Route W)
  unfolding no_content
  user_routes register login send_code verify_code logout =
      record { method = "POST"; path = "/api/users/register"; handlers = public_chain register }
      ∷ record { method = "POST"; path = "/api/users/login"; handlers = public_chain login }
      ∷ record { method = "POST"; path = "/api/users/send-code"; handlers = public_chain send_code }
      ∷ record {
        method = "POST";
        path = "/api/users/verify-code";
        handlers = public_chain verify_code;
      }
      ∷ record { method = "GET"; path = "/api/users/auth"; handlers = user_chain no_content }
      ∷ record { method = "GET"; path = "/api/users/logout"; handlers = user_chain logout }
      ∷ []
