-- ===== src/Tests/Repositories.antt =====
-- internal/repository and internal/service over the tables and keys of the examples: what each answers.
use ktauth.Prelude.{String, Bool, true, false, Option, none, some, [], ◌∷◌, map, ◌≡◌, refl}
use ktauth.Errors.{Error, pg_error, wrapf, no_rows, ip_not_found, user_not_found, user_exist}
use ktauth.Effects.{ok, err}
use ktauth.Repository.UserRepo
use ktauth.Repository.IpRepo
use ktauth.Repository.Keys
use ktauth.Identity.Account
use ktauth.Identity.Email
use ktauth.Identity.Email.{EmailService, panicked}
use ktauth.IpUtils.{process_ip}
use ktauth.Routes.{Route}
use ktauth.Middleware.Auth.{strip_prefix}
use ktauth.Net.Parse.{trim_space}
use ktauth.Repository.IpCache
use ktauth.Identity.Email.Message.{mail_message}
use ktauth.Handlers.EmailCodes
use ktauth.Handlers.EmailCodes.{EmailCode, send_email_code}
use ktauth.Handlers.IpRules
use ktauth.Handlers.IpRules.Replies.{rule_manager}
use ktauth.Admin.Rules
use ktauth.Admin.Rules.TakesEffect.{cached_rules, recorded_requests}
use ktauth.App.{code_manager, user_store, update_admin, routes}
use ktauth.Tests.Memory.{Memory, memory, env}
use ktauth.Tests.Routes.{world}
use ktauth.Tests.Sessions.{bcrypt, with_keys}
use ktauth.Tests.Rules.{pg, ban_request}
use ktauth.Tests.App.{packages, settings}

-- The table answers each change with an error.
abbrev refused : Error
refused = pg_error "23505" "duplicate key"

rule_kept :
    (IpRules.del_rule
      (rule_manager pg (cached_rules memory) (recorded_requests memory))
      ban_request
      with_keys
      world).0.status
    ≡ 500
unfolding IpRules.del_rule Rules.del_rule IpRepo.del_ip process_ip
rule_kept = refl

rule_unchanged : (IpRepo.update pg 1 true none world).0 ≡ err ip_not_found
unfolding IpRepo.update
rule_unchanged = refl

unlisted : (IpRepo.query_ip pg 4 (10 ∷ 0 ∷ 0 ∷ 1 ∷ []) world).0 ≡ err ip_not_found
unfolding IpRepo.query_ip
unlisted = refl

-- A DELETE that fails is reported as a user that is not there.
user_kept : (UserRepo.del_user pg "alice" world).0 ≡ err user_not_found
unfolding UserRepo.del_user
user_kept = refl

name_taken :
    (Account.new_user bcrypt env
      (user_store packages settings)
      "alice"
      "secret"
      none
      "user"
      world).0
    ≡ err user_exist
unfolding Account.new_user UserRepo.new_user
name_taken = refl

nobody :
    (Account.get_user_by_name bcrypt env (user_store packages settings) "bob" world).0
    ≡ err (wrapf "No such user: bob " no_rows)
unfolding Account.get_user_by_name UserRepo.get_user_by_name
nobody = refl

admin_unchanged :
    (update_admin packages settings world).0 ≡ err (wrapf "Failed to update: " refused)
unfolding update_admin UserRepo.update
admin_unchanged = refl

code_missing :
    (EmailCodes.verify_email_code
      (some (code_manager packages settings))
      packages.bind_code
      with_keys
      world).0.status
    ≡ 400
unfolding EmailCodes.verify_email_code
code_missing = refl

abbrev unset : Option (EmailService Memory)
unset = none

verify_panics : (Email.verify_code unset "a@b.c" "1" world).0 ≡ panicked
unfolding Email.verify_code trim_space
verify_panics = refl

cooling_down :
    (Keys.countdown_cd memory "a@b.c" (Keys.countdown_set memory "a@b.c" world).1).0 ≡ ok true
unfolding Keys.countdown_cd Keys.countdown_set
cooling_down = refl

-- The times to live of the three types of rules, and of any other text.
lifetimes :
    map IpCache.ttl ("blacklist" ∷ "whitelist" ∷ "greylist" ∷ "" ∷ [])
    ≡ 3600000 ∷ 1800000 ∷ 300000 ∷ 0 ∷ []
unfolding IpCache.ttl
lifetimes = refl

abbrev method_and_path : Route Memory → String × String
method_and_path route = (route.method, route.path)

paths :
    map (λ (route : Route Memory). method_and_path route) (routes packages settings)
    ≡ ("GET", "/kt/0")
      ∷ ("GET", "/kt/1")
      ∷ ("GET", "/api/tokens/restock")
      ∷ ("DELETE", "/api/tokens/flush")
      ∷ ("GET", "/api/tokens")
      ∷ ("GET", "/api/tokens/all")
      ∷ ("POST", "/api/users/register")
      ∷ ("POST", "/api/users/login")
      ∷ ("POST", "/api/users/send-code")
      ∷ ("POST", "/api/users/verify-code")
      ∷ ("GET", "/api/users/auth")
      ∷ ("GET", "/api/users/logout")
      ∷ ("GET", "/api/ips")
      ∷ ("DELETE", "/api/ips")
      ∷ ("POST", "/api/ips/new")
      ∷ ("GET", "/api/users")
      ∷ []
unfolding routes
paths = refl

abbrev has_prefix : String → String → Bool
has_prefix p s = elim (strip_prefix p s) [ none ↦ false | some rest ↦ true ]

mail_headers :
    has_prefix
      "From: f\r\nTo: t\r\nDate: d\r\nMessage-ID: <i@h>\r\nSubject: KTAUTH verification code\r\n"
      (mail_message "f" "t" "d" "i" "h" "012345")
    ≡ true
unfolding mail_message strip_prefix
mail_headers = refl
