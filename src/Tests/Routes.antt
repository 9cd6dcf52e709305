-- ===== src/Tests/Routes.antt =====
-- The gateway, the middlewares and the routes of administrators at concrete requests.
use ktauth.Prelude.{
  ◌↔◌, ◌⊎◌, String, true, false, none, some, List, [], ◌∷◌, ◌≡◌, refl, ℕ, str_eq, if◌then◌else◌,
  All, ◌++◌,
}
use ktauth.Errors.{foreign}
use ktauth.Effects.{ok, err}
use ktauth.Jwt.{Jwt, Claims}
use ktauth.Model.{IpRuleType, ip_white_list, ip_grey_list}
use ktauth.Gin.{Context, Handler, Request, fresh_context, set_status}
use ktauth.Gin.Engine.{Engine}
use ktauth.Middleware.RateLimit.{rate_limit}
use ktauth.Middleware.RateLimit.Passing.{Passage, rate_limit-Passage}
use ktauth.Middleware.Auth.{verify_session}
use ktauth.Middleware.Auth.Entering.{Entry, verify_session-Entry}
use ktauth.Routes.{
  Route, Guards, public_chain, strict_chain, no_content, token_routes, admin_routes,
}
use ktauth.Routes.Gate.{rule_of, allowed_of, gateway_iff}
use ktauth.Routes.AdminOnly.{
  AdminGate, admin_chain-AdminGate, IsAdminOnly, admin_routes-IsAdminOnly,
}
use ktauth.Tests.Memory.{Memory, env}

abbrev run_handlers : List (Handler Memory) → Handler Memory
run_handlers [] c w = (c, w)
run_handlers (h ∷ hs) c w =
    let rest = run_handlers hs (h c w).0 (h c w).1 in if (h c w).0.aborted then h c w else rest

abbrev pub engine : Engine Memory
engine = record { serve = run_handlers; serve-nil = λ c w. refl; serve-cons = λ h hs c w. refl }

abbrev pub world : Memory
world = record { slots = λ k. none; clock = 100000; ids = "a" ∷ "b" ∷ [] }

abbrev rule_of_ip : String → IpRuleType
rule_of_ip ip =
    if str_eq ip "10.0.0.1"
    then "whitelist"
    else if str_eq ip "10.0.0.2"
    then "greylist"
    else "blacklist"

abbrev pub root : Claims
root = record {
  uuid = "u1";
  name = "root";
  role = "admin";
  id = "j1";
  issuer = "ktauth";
  issued_at = 0;
  not_before = 0;
  expires_at = 604800000;
}

abbrev pub jwt : Jwt
jwt = record {
  sign = λ claims. ok "token-1";
  parse = λ now token.
      if str_eq token "token-1" then ok (some root) else err (foreign "token is malformed");
}

abbrev pub guards : Guards Memory
guards = record {
  querier = record { query_rule = λ ip w. (ok (rule_of_ip ip), w) };
  limiter = record { allow = λ ip w. (ok true, w); abuse = λ ip w. (ok false, w) };
  adder = record { add_rule = λ ip white note w. ((ip, none), w) };
  sessions = record { get_session = λ uuid jti w. (ok uuid, w) };
  jwt = jwt;
  env = env;
}

-- Requests from an address, with the token of the administrator.
abbrev pub from : String → Request
from ip = record {
  client_ip = ip;
  method = "GET";
  path = "/kt/0";
  raw_query = "";
  host = "localhost";
  header = λ name. if str_eq name "Authorization" then "Bearer token-1" else "";
  query = λ name. "";
}

-- An address that is greylisted and within its limit passes level 0 and not level 1.
gateway_iff_example :
    (((engine.serve
          (public_chain guards no_content)
          (fresh_context (from "10.0.0.2"))
          world).0.status
        ≡ 204)
      ↔ ((rule_of engine guards (from "10.0.0.2") world ≡ ok ip_white_list)
          ⊎ ((rule_of engine guards (from "10.0.0.2") world ≡ ok ip_grey_list)
              × (allowed_of engine guards (from "10.0.0.2") world ≡ ok true))))
    × (((engine.serve
            (strict_chain guards no_content)
            (fresh_context (from "10.0.0.2"))
            world).0.status
          ≡ 204)
        ↔ (rule_of engine guards (from "10.0.0.2") world ≡ ok ip_white_list))
gateway_iff_example = gateway_iff engine guards (from "10.0.0.2") world

admin_chain-AdminGate_example : AdminGate engine guards (from "10.0.0.1") world
admin_chain-AdminGate_example = admin_chain-AdminGate engine guards (from "10.0.0.1") world

abbrev teapot : ℕ → Handler Memory
teapot code c w = (set_status code c, w)

admin_routes-IsAdminOnly_example :
    All
      (λ (route : Route Memory). IsAdminOnly engine guards route.handlers)
      (token_routes guards (teapot 1) (teapot 2) (teapot 3) (teapot 4)
        ++ admin_routes guards (teapot 5) (teapot 6) (teapot 7) (teapot 8))
admin_routes-IsAdminOnly_example =
    admin_routes-IsAdminOnly engine guards (teapot 1) (teapot 2) (teapot 3) (teapot 4) (teapot 5)
      (teapot 6) (teapot 7) (teapot 8)

abbrev visit : Context
visit = fresh_context (from "10.0.0.1")

verify_session-Entry_example :
    Entry jwt env guards.sessions "admin" visit world
      (verify_session jwt env guards.sessions "admin" visit world).0
      (verify_session jwt env guards.sessions "admin" visit world).1
verify_session-Entry_example = verify_session-Entry jwt env guards.sessions "admin" visit world

rate_limit-Passage_example :
    Passage guards.limiter guards.adder visit world
      (rate_limit guards.limiter guards.adder visit world).0
      (rate_limit guards.limiter guards.adder visit world).1
rate_limit-Passage_example = rate_limit-Passage guards.limiter guards.adder visit world
