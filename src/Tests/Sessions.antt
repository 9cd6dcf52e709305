-- ===== src/Tests/Sessions.antt =====
-- Login, logout and registration at concrete requests, with the Redis in memory.
use ktauth.Prelude.{
  ◌+◌, ◌<◌, ◌↔◌, String, true, none, some, ◌≡◌, refl, str_eq, arith, if◌then◌else◌,
}
use ktauth.Errors.{foreign}
use ktauth.Effects.{Result, ok, err}
use ktauth.Model.{User}
use ktauth.Jwt.{parse_token}
use ktauth.Gin.{Context, fresh_context}
use ktauth.Identity.Account.{Bcrypt}
use ktauth.Identity.Session.{session_manager, session_reader}
use ktauth.Repository.Keys.{create_session, del_session}
use ktauth.Middleware.Auth.{strip_prefix, verify_session}
use ktauth.Handlers.Login.{Login, login_user, logout_user}
use ktauth.Handlers.Login.Credentials.{LoggedIn, login_user-LoggedIn}
use ktauth.Handlers.Login.Lifecycle.{logout_revokes, session_lifetime}
use ktauth.Handlers.Register.{Register, RegisterManagers, register_user}
use ktauth.Handlers.Register.Accounts.{Registration, register_user-Registration}
use ktauth.Tests.Memory.{Memory, memory, env}
use ktauth.Tests.Memory.Laws.{memory-StringLaws}
use ktauth.Tests.Routes.{jwt, root, world, from}

-- The administrator's session, when it ends, and her next request.
abbrev pub with_keys : Context
with_keys = record (fresh_context (from "10.0.0.1")) { uuid = "u1"; jti = "j1" }

abbrev logged_out : Memory
logged_out = (logout_user (session_manager memory) with_keys world).1

logout_revokes_example :
    let out = verify_session jwt env (session_reader memory) "" with_keys logged_out in
    (out.0.aborted ≡ true) × (out.0.status ≡ 401)
unfolding logout_user del_session strip_prefix parse_token
logout_revokes_example =
    logout_revokes memory-StringLaws jwt with_keys with_keys world logged_out "" "token-1" root refl
      (record { later = omega arith; same = λ t h. refl }) refl refl refl refl

abbrev session_created : Memory
session_created = (create_session memory "u1" "j1" world).1

session_lifetime_example :
    ((verify_session jwt env (session_reader memory) "admin" with_keys session_created).0
      ≡ with_keys)
    ↔ (100000 < 100000 + 518400000)
unfolding create_session strip_prefix parse_token
session_lifetime_example =
    session_lifetime memory-StringLaws jwt with_keys world session_created "admin" "token-1" root
      refl (record { later = omega arith; same = λ t h. refl }) (λ e bad. absurd (cc)) refl refl
      refl (λ _. refl)

abbrev alice : User
alice = record {
  uuid = "u2";
  name = "alice";
  password_hash = "hash of secret";
  email = none;
  role = "user";
}

abbrev pub bcrypt : Bcrypt Memory
bcrypt = record {
  generate = λ password w. (ok "hash of secret", w);
  compare = λ hash password. if str_eq password "secret" then none else some (foreign "mismatch");
}

abbrev find : String → Memory → Result User × Memory
find name w = (if str_eq name "alice" then ok alice else err (foreign "no such user"), w)

abbrev pub credentials : Context → Result Login
credentials c = ok (record { user = "alice"; password = "secret" })

login_user-LoggedIn_example :
    LoggedIn jwt env bcrypt
      (session_manager memory)
      find
      credentials
      with_keys
      world
      (login_user jwt env bcrypt (session_manager memory) find credentials with_keys world).0
      (login_user jwt env bcrypt (session_manager memory) find credentials with_keys world).1
login_user-LoggedIn_example =
    login_user-LoggedIn jwt env bcrypt (session_manager memory) find credentials with_keys world

abbrev managers : RegisterManagers Memory
managers = record {
  new_user = λ name password email role w. (ok "u3", w);
  consume = λ token w. (true, w);
  code_manager = none;
}

abbrev pub invitation : Context → Result Register
invitation c =
    ok (record { token = some "t1"; user = "bob"; password = "p"; email = none; code = none })

register_user-Registration_example :
    Registration managers invitation with_keys world
      (register_user managers invitation with_keys world).0
      (register_user managers invitation with_keys world).1
register_user-Registration_example = register_user-Registration managers invitation with_keys world
