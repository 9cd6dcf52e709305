-- ===== src/Tests/App.antt =====
-- The whole program at concrete requests: a Redis in memory and a table of two answers.
use ktauth.Prelude.{pos, true, [], ◌∷◌, ◌≡◌, refl}
use ktauth.Effects.{ok}
use ktauth.Repository.Tokens
use ktauth.Repository.Tokens.{tokens_key}
use ktauth.Repository.UserRepo
use ktauth.Repository.IpRepo
use ktauth.Repository.Rows.{collect}
use ktauth.Gin.{Context, strs, rules, users, plain, json}
use ktauth.Handlers.Tokens as TokenHandlers
use ktauth.Handlers.EmailCodes.{send_email_code}
use ktauth.Handlers.IpRules
use ktauth.Handlers.IpRules.Replies.{rule_manager}
use ktauth.Admin.Rules
use ktauth.Admin.Rules.TakesEffect.{cached_rules, recorded_requests}
use ktauth.Admin.Lists
use ktauth.App.{Packages, Settings, token_manager, managers}
use ktauth.App.Smtp.{Unsent, send_email_code-Unsent}
use ktauth.Tests.Memory.{Memory, memory, env}
use ktauth.Tests.Routes.{jwt, world}
use ktauth.Tests.Sessions.{bcrypt, credentials, invitation, with_keys}
use ktauth.Tests.Tokens.{offering}
use ktauth.Tests.Rules.{pg, mailer, random, ban_request}

abbrev pub packages : Packages Memory
packages = record {
  redis = memory;
  postgres = pg;
  env = env;
  jwt = jwt;
  bcrypt = bcrypt;
  mailer = mailer;
  random = random;
  bind_register = invitation;
  bind_login = credentials;
  bind_code = λ c. ok (record { email = "a@b.c"; code = "" });
  bind_rule = ban_request;
}

-- No SMTP server is set.
abbrev pub settings : Settings
settings = record {
  rate_limit = pos 60;
  rate_limit_enabled = true;
  abuse_limit = pos 100;
  abuse_window = pos 300000000000;
  smtp_host = "";
  smtp_port = "";
  smtp_username = "";
  smtp_password = "";
  smtp_from = "";
  admin_name = "";
  admin_password = "";
}

send_email_code-Unsent_example :
    Unsent packages with_keys
      (send_email_code (managers packages settings) packages.bind_code with_keys world).0
    × ((send_email_code (managers packages settings) packages.bind_code with_keys world).1 ≡ world)
send_email_code-Unsent_example = send_email_code-Unsent packages settings with_keys world refl

-- The handlers for tokens answer what is in the set.
listing :
    (TokenHandlers.get_tokens (token_manager packages settings) with_keys offering).0.body
    ≡ json (("tokens", strs ("t1" ∷ "t2" ∷ [])) ∷ [])
unfolding TokenHandlers.get_tokens Tokens.list_all
listing = refl

one_of :
    (TokenHandlers.get_token (token_manager packages settings) with_keys offering).0.body
    ≡ plain "t1"
unfolding TokenHandlers.get_token Tokens.get_one
one_of = refl

flushed :
    (TokenHandlers.get_token
      (token_manager packages settings)
      with_keys
      (TokenHandlers.flush_tokens (token_manager packages settings) with_keys offering).1).0.body
    ≡ plain "No tokens, try to restock..."
unfolding TokenHandlers.get_token TokenHandlers.flush_tokens Tokens.get_one Tokens.flush_all
flushed = refl

restocked : (TokenHandlers.restock (token_manager packages settings) with_keys world).0.status ≡ 201
unfolding TokenHandlers.restock Tokens.restock
restocked = refl

abbrev user_listing : Context
user_listing =
    (IpRules.list_users
      (record { list_users = Lists.list_users (record { list_users = UserRepo.list_users pg }) })
      with_keys world).0

no_users : user_listing.body ≡ json (("users", users []) ∷ [])
unfolding IpRules.list_users Lists.list_users UserRepo.list_users collect
no_users = refl

no_rules :
    (IpRules.list_rules
      (rule_manager pg (cached_rules memory) (recorded_requests memory))
      with_keys
      world).0.body
    ≡ json (("rules", rules []) ∷ [])
unfolding IpRules.list_rules Rules.list_rules IpRepo.get_ips collect
no_rules = refl
