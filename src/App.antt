-- ===== src/App.antt =====
-- cmd/ktauth/main.go: how the repositories, services, handlers and middlewares are put together.
pub mod Smtp
pub mod Connect
pub mod Environment
pub mod StaleRules
pub mod AdminLogin
pub mod VerdictAge
pub mod GreyLimit
pub mod Undisturbed
pub mod Starting
use ktauth.Prelude.{
  ℕ, ℤ, String, Bool, Option, none, some, List, [], ◌∷◌, ◌++◌, ◌||◌, str_eq, if◌then◌else◌,
}
use ktauth.Effects.{Result, Op}
use ktauth.Redis.{Redis, Env}
use ktauth.Postgres.{Postgres}
use ktauth.Jwt.{Jwt}
use ktauth.Repository.RateLimit
use ktauth.Repository.IpRepo
use ktauth.Repository.UserRepo
use ktauth.Repository.Tokens
use ktauth.Repository.Keys
use ktauth.Access.IpService
use ktauth.Access.RateService
use ktauth.Access.RateService.{RateLimitService}
use ktauth.Admin.Rules
use ktauth.Admin.Rules.TakesEffect.{rule_cache, cached_rules, recorded_requests}
use ktauth.Admin.Lists
use ktauth.Admin.ManageTokens
use ktauth.Admin.ManageTokens.{TokenStore}
use ktauth.Identity.ConsumeToken.{consume_token}
use ktauth.Identity.Account
use ktauth.Identity.Account.{Bcrypt, UserStore}
use ktauth.Identity.Email
use ktauth.Identity.Email.{EmailService, Mailer}
use ktauth.Identity.Email.Code.{Random}
use ktauth.Identity.Session.{session_manager, session_reader}
use ktauth.Slog.{info, error}
use ktauth.Middleware.SlogWriter.{SlogWriter, new_slog_writer}
use ktauth.Gin.{Context}
use ktauth.Handlers.EmailCodes
use ktauth.Handlers.EmailCodes.{EmailCode, EmailCodeManager, first_manager}
use ktauth.Handlers.Register
use ktauth.Handlers.Register.{Register as Registering, RegisterManagers}
use ktauth.Handlers.Login
use ktauth.Handlers.Login.{Login as LoggingIn}
use ktauth.Handlers.IpRules
use ktauth.Handlers.IpRules.{Rule}
use ktauth.Handlers.IpRules.Replies.{rule_store, rule_manager}
use ktauth.Handlers.Tokens as TokenHandlers
use ktauth.Handlers.Tokens.{TokenManager}
use ktauth.Routes.{Guards, Route, gateway_routes, token_routes, user_routes, admin_routes}

-- The servers and the packages that the program calls, and the decoding of its bodies.
pub record Packages (W : Type 0) : Type 0 where
  pub redis : Redis W
  pub postgres : Postgres W
  pub env : Env W
  pub jwt : Jwt
  pub bcrypt : Bcrypt W
  pub mailer : Mailer W
  pub random : Random W
  pub bind_register : Context → Result Registering
  pub bind_login : Context → Result LoggingIn
  pub bind_code : Context → Result EmailCode
  pub bind_rule : Context → Result Rule

-- The settings that main reads from the environment.
pub record Settings : Type 0 where
  pub rate_limit : ℤ
  pub rate_limit_enabled : Bool
  pub abuse_limit : ℤ
  pub abuse_window : ℤ
  pub smtp_host : String
  pub smtp_port : String
  pub smtp_username : String
  pub smtp_password : String
  pub smtp_from : String
  pub admin_name : String
  pub admin_password : String

-- gin.DefaultWriter and gin.DefaultErrorWriter
abbrev pub default_writer : SlogWriter
default_writer = new_slog_writer info

abbrev pub default_error_writer : SlogWriter
default_error_writer = new_slog_writer error

module _ {W : Type 0} (p : Packages W) (s : Settings) where
  -- rateLimitService
  abbrev pub rate_limit_service : RateLimitService W
  rate_limit_service = record {
    rate_reader = record { allow = RateLimit.allow p.redis p.env; abuse = RateLimit.abuse p.redis };
    limit_per_minute = s.rate_limit;
    enabled = s.rate_limit_enabled;
    abuse_limit = s.abuse_limit;
    abuse_window = s.abuse_window;
  }

  -- The middlewares, over ipAccessService, rateLimitService, adminIPRuleService and sessionService
  abbrev pub guards : Guards W
  guards = record {
    querier = record {
      query_rule =
          IpService.query_rule (record { query_ip = IpRepo.query_ip p.postgres })
            (rule_cache p.redis);
    };
    limiter = record {
      allow = RateService.allow rate_limit_service;
      abuse = RateService.abuse rate_limit_service;
    };
    adder = record {
      add_rule =
          Rules.add_rule (rule_store p.postgres) (cached_rules p.redis) (recorded_requests p.redis);
    };
    sessions = session_reader p.redis;
    jwt = p.jwt;
    env = p.env;
  }

  -- emailService, which is a nil pointer where SMTP is not configured
  abbrev pub email_service : Option (EmailService W)
  email_service =
      Email.new_email_service p.mailer
        (record { set = Keys.register_set p.redis; validate = Keys.register_validate p.redis })
        (record { set = Keys.countdown_set p.redis; cd = Keys.countdown_cd p.redis }) s.smtp_host
        s.smtp_port s.smtp_username s.smtp_password s.smtp_from

  -- The pointer as an EmailCodeManager
  abbrev pub code_manager : EmailCodeManager W
  code_manager = record {
    send_code = Email.send_code p.mailer p.random p.env email_service;
    verify_code = Email.verify_code email_service;
  }

  -- What NewUserHandler keeps of its optional managers, of which main passes one
  abbrev pub managers : Option (EmailCodeManager W)
  managers = first_manager (code_manager ∷ [])

  -- accountService
  abbrev pub user_store : UserStore W
  user_store = record {
    new_user = UserRepo.new_user p.postgres;
    get_user_by_name = UserRepo.get_user_by_name p.postgres;
    update_user = UserRepo.update p.postgres;
  }

  abbrev pub register_managers : RegisterManagers W
  register_managers = record {
    new_user = Account.new_user p.bcrypt p.env user_store;
    consume = consume_token (record { consume = Tokens.consume p.redis });
    code_manager = managers;
  }

  -- tokenRepo, and adminTokenService over it
  abbrev pub token_store : TokenStore W
  token_store = record {
    restock = Tokens.restock p.redis p.env;
    flush_all = Tokens.flush_all p.redis;
    get_one = Tokens.get_one p.redis;
    list_all = Tokens.list_all p.redis;
  }

  abbrev pub token_manager : TokenManager W
  token_manager = record {
    restock = ManageTokens.restock token_store;
    flush_tokens = ManageTokens.flush_tokens token_store;
    get_token = ManageTokens.get_token token_store;
    get_tokens = ManageTokens.get_tokens token_store;
  }

  -- updateAdmin
  unfoldable pub update_admin : Op W (Unit {0})
  unfolding Account.update_user
  update_admin w =
      let unset = str_eq s.admin_name "" || str_eq s.admin_password "" in
      Account.update_user p.bcrypt p.env user_store "00000000-0000-0000-0000-000000000000"
        (if unset then "admin" else s.admin_name) (if unset then "admin" else s.admin_password) none
        "admin" w

  -- The handlers of userHandler, tokenHandler, ipRuleHandler and userManageHandler, by their routes
  unfoldable pub routes : List (Route W)
  unfolding gateway_routes token_routes user_routes admin_routes
  routes =
      gateway_routes guards
      ++ (token_routes guards (TokenHandlers.restock token_manager)
            (TokenHandlers.flush_tokens token_manager) (TokenHandlers.get_token token_manager)
            (TokenHandlers.get_tokens token_manager)
          ++ (user_routes guards (Register.register_user register_managers p.bind_register)
                (Login.login_user p.jwt p.env p.bcrypt (session_manager p.redis)
                  (Account.get_user_by_name p.bcrypt p.env user_store) p.bind_login)
                (EmailCodes.send_email_code managers p.bind_code)
                (EmailCodes.verify_email_code managers p.bind_code)
                (Login.logout_user (session_manager p.redis))
              ++ admin_routes guards
                  (IpRules.list_rules
                    (rule_manager p.postgres (cached_rules p.redis) (recorded_requests p.redis)))
                  (IpRules.del_rule
                    (rule_manager p.postgres (cached_rules p.redis) (recorded_requests p.redis))
                    p.bind_rule)
                  (IpRules.add_rule
                    (rule_manager p.postgres (cached_rules p.redis) (recorded_requests p.redis))
                    p.bind_rule)
                  (IpRules.list_users (record {
                    list_users =
                        Lists.list_users (record { list_users = UserRepo.list_users p.postgres });
                  }))))
