-- ===== src/Tests/Accounts.antt =====
-- A user who registers and logs in, with a table of users in memory.
use ktauth.Prelude.{
  String, Bool-cases, subst, arith, length, Bool, true, false, ◌≢◌, Option, none, some, List, [],
  ◌∷◌, ◌≡◌, refl, inl, inr, eq_refl, str_eq, if◌then◌else◌, ℕ,
}
use ktauth.Errors.{Error, pg_error, no_rows, foreign, redis_nil}
use ktauth.Effects.{Result, ok, err}
use ktauth.Redis.{Redis, Env}
use ktauth.Net.Parse.{codes}
use ktauth.Model.{User}
use ktauth.Postgres.{Postgres, Statement, insert_user, select_user, update_user}
use ktauth.Postgres.Laws.{UserLaws, is_uuid, is_uuid_from}
use ktauth.Repository.UserRepo
use ktauth.Identity.Account
use ktauth.Identity.Account.{Bcrypt}
use ktauth.Jwt.{Jwt}
use ktauth.Gin.{Context}
use ktauth.Handlers.Login.{Login, SessionManager}
use ktauth.Handlers.Login.Held.{Hashes, users_of, Welcomed}
use ktauth.Handlers.Login.Registered.{registered_login}
use ktauth.Handlers.Register.{Register, RegisterManagers, register_user}
use ktauth.App.{Packages, Settings, update_admin}
use ktauth.App.AdminLogin.{admin_uuid, admin_login}
use ktauth.Tests.App.{settings}
use ktauth.Tests.Sessions.{with_keys}

abbrev Table : Type 0
Table = List User

abbrev named : Table → String → Option User
named [] name = none
named (u ∷ us) name = let rest = named us name in if str_eq u.name name then some u else rest

abbrev inserted : User → Option User → Table → (ℕ × Option Error) × Table
inserted user none t = ((1, none), user ∷ t)
inserted user (some other) t = ((0, some (pg_error "23505" "duplicate key")), t)

abbrev holds : Table → String → Bool
holds [] uuid = false
holds (u ∷ us) uuid = let rest = holds us uuid in if str_eq u.uuid uuid then true else rest

abbrev without : String → Table → Table
without uuid [] = []
without uuid (u ∷ us) = let rest = without uuid us in if str_eq u.uuid uuid then rest else u ∷ rest

abbrev updated : User → Bool → Table → (ℕ × Option Error) × Table
updated user false t = ((0, none), t)
updated user true t = ((1, none), user ∷ without user.uuid t)

abbrev run_statement : Statement → Table → (ℕ × Option Error) × Table
run_statement (insert_user uuid name hash email role) t =
    inserted (record { uuid = uuid; name = name; password_hash = hash; email = email; role = role })
      (named t name) t
run_statement (update_user name hash email role uuid) t =
    updated (record { uuid = uuid; name = name; password_hash = hash; email = email; role = role })
      (holds t uuid) t
run_statement _ t = ((0, none), t)

abbrev selected : Option User → Result User
selected none = err no_rows
selected (some user) = ok user

abbrev run_select : Statement → Table → Result User × Table
run_select (select_user name) t = (selected (named t name), t)
run_select _ t = (err no_rows, t)

abbrev pg : Postgres Table
pg = record {
  exec = run_statement;
  row_bool = λ statement t. (err no_rows, t);
  row_ip = λ statement t. (err no_rows, t);
  row_user = run_select;
  query_ips = λ statement t. (err no_rows, t);
  query_users = λ statement t. (err no_rows, t);
}

inserted-row :
    (user : User) (found : Option User) (t : Table)
    → (inserted user found t).0.1 ≡ none
    → named (inserted user found t).1 user.name ≡ some user
inserted-row user none t fine = rw eq_refl refl
inserted-row user (some other) t fine = absurd (cc)

updated-row :
    (user : User) (there : Bool) (t : Table)
    → (updated user there t).0.0 ≢ 0
    → named (updated user there t).1 user.name ≡ some user
updated-row user true t found = rw eq_refl refl
updated-row user false t found = absurd (found refl)

pg-UserLaws : UserLaws pg named
pg-UserLaws = record {
  insert_user-row = λ user t storable fine. inserted-row user (named t user.name) t fine;
  update_user-row = λ user t storable fine found. updated-row user (holds t user.uuid) t found;
  select_user-row = λ name user t held. inl (rw held refl);
}

abbrev uuid_7 : String
uuid_7 = "7b0c1f52-0d6e-4c1a-9b55-3f2a6e8d9c07"

abbrev env : Env Table
env = record { now_ms = λ t. 100000; new_uuid = λ t. (uuid_7, t) }

-- A hash for each of two passwords; any other one is refused.
abbrev hashed : String → Result String
hashed password =
    if str_eq password "p"
    then ok "$2a$10$ppppppppppppppppppppppppppppppppppppppppppppppppppppp"
    else if str_eq password "admin"
    then ok "$2a$10$Rrj.xFwTH0y7R1bBLjaJU.bME3t.mjjXH7tiaJyjOIiVG7DfPcsrW"
    else err (foreign "bcrypt: password length exceeds 72 bytes")

abbrev compared : Result String → String → Option Error
compared (err e) hash = some e
compared (ok own) hash = if str_eq hash own then none else some (foreign "mismatch")

abbrev bcrypt : Bcrypt Table
bcrypt = record {
  generate = λ password t. (hashed password, t);
  compare = λ hash password. compared (hashed password) hash;
}

compared-none :
    (found : Result String) (hash : String) → found ≡ ok hash → compared found hash ≡ none
compared-none (ok own) hash e = let same : own ≡ hash = cc in rw (same, eq_refl) refl
compared-none (err x) hash e = absurd (cc)

hashed-long : (password hash : String) → hashed password ≡ ok hash → length (codes hash) ≡ 60
hashed-long password hash e = elim (Bool-cases (str_eq password "p")) [
  | inl first ↦
      let same : "$2a$10$ppppppppppppppppppppppppppppppppppppppppppppppppppppp" ≡ hash =
        cc (rw first at e) in
      subst (λ s. length (codes s) ≡ 60) same refl
  | inr other ↦ elim (Bool-cases (str_eq password "admin")) [
    | inl second ↦
        let same : "$2a$10$Rrj.xFwTH0y7R1bBLjaJU.bME3t.mjjXH7tiaJyjOIiVG7DfPcsrW" ≡ hash =
          cc (rw (other, second) at e) in
        subst (λ s. length (codes s) ≡ 60) same refl
    | inr neither ↦ absurd (cc (rw (other, neither) at e))
  ]
]

hashes :
    (hash password : String) (t : Table)
    → (bcrypt.generate password t).0 ≡ ok hash
    → Hashes bcrypt hash password
hashes hash password t e = record {
  fitting = compared-none (hashed password) hash e;
  long = hashed-long password hash e;
}

canonical : (t : Table) → is_uuid (env.new_uuid t).0 ≡ true
unfolding is_uuid_from
canonical t = refl

abbrev managers : RegisterManagers Table
managers = record {
  new_user = Account.new_user bcrypt env (users_of pg);
  consume = λ token t. (true, t);
  code_manager = none;
}

abbrev joining : Context → Result Register
joining c =
    ok (record { token = some "t1"; user = "bob"; password = "p"; email = none; code = none })

abbrev entering : Context → Result Login
entering c = ok (record { user = "bob"; password = "p" })

abbrev jwt : Jwt
jwt = record { sign = λ claims. ok "token-7"; parse = λ now token. err (foreign "not asked") }

abbrev sessions : SessionManager Table
sessions = record {
  create_session = λ uuid jti t. (ok tt, t);
  del_session = λ uuid jti t. (ok tt, t);
}

abbrev joined : Table
joined = (register_user managers joining with_keys []).1

registered_login_example :
    (user : User) × (user.name ≡ "bob")
    × (user.role ≡ "user")
    × Welcomed pg-UserLaws env bcrypt jwt sessions
        (λ claims. ("token-7", refl))
        (λ uuid jti t. refl)
        entering
        with_keys
        joined
        user
unfolding Account.new_user UserRepo.new_user register_user
registered_login_example =
    registered_login pg-UserLaws env bcrypt hashes canonical jwt sessions
      (λ claims. ("token-7", refl)) (λ uuid jti t. refl) managers joining entering with_keys
      with_keys [] joined
      (record { token = some "t1"; user = "bob"; password = "p"; email = none; code = none }) refl
      refl (omega arith) (λ address there. absurd (cc)) refl refl refl (λ e failed. cc)

-- A program whose Redis is not asked.
abbrev no_redis : Redis Table
no_redis = record {
  set = λ k v ms t. (ok tt, t);
  get = λ k t. (err redis_nil, t);
  get_del = λ k t. (err redis_nil, t);
  del = λ k t. (ok tt, t);
  pipe_set = λ l t. (ok tt, t);
  scard = λ k t. (ok 0, t);
  sadd = λ k l t. (ok tt, t);
  srem = λ k m t. (ok 0, t);
  smembers = λ k t. (ok [], t);
  srandmember = λ k t. (err redis_nil, t);
  eval = λ s t. (err redis_nil, t);
  call_zremrangebyscore = λ k max t. t;
  call_zcard = λ k t. 0;
  call_zadd = λ k score m t. t;
  call_pexpire = λ k ms t. t;
  call_incr = λ k t. (1, t);
  call_expire = λ k s t. t;
  call_del = λ k t. t;
}

abbrev packages : Packages Table
packages = record {
  redis = no_redis;
  postgres = pg;
  env = env;
  jwt = jwt;
  bcrypt = bcrypt;
  mailer = record {
    parse_address = λ s. err (foreign "not asked");
    send_mail = λ server login sender receiver message t. (ok tt, t);
    date = λ t. "";
  };
  random = record { int_below = λ n t. (ok 0, t) };
  bind_register = joining;
  bind_login = entering;
  bind_code = λ c. err (foreign "not asked");
  bind_rule = λ c. err (foreign "not asked");
}

-- ADMIN_PASSWD without ADMIN_NAME: both are ignored.
abbrev half_set : Settings
half_set = record settings { admin_password = "secret" }

abbrev seeded : Table
seeded =
    record { uuid = admin_uuid; name = "root"; password_hash = "old"; email = none; role = "admin" }
    ∷ []

abbrev admin_entering : Context → Result Login
admin_entering c = ok (record { user = "admin"; password = "admin" })

abbrev started : Table
started = (update_admin packages half_set seeded).1

admin_login_example :
    (user : User) × (user.uuid ≡ admin_uuid)
    × (user.name ≡ "admin")
    × (user.role ≡ "admin")
    × Welcomed pg-UserLaws env bcrypt jwt sessions
        (λ claims. ("token-7", refl))
        (λ uuid jti t. refl)
        admin_entering
        with_keys
        started
        user
unfolding update_admin UserRepo.update
admin_login_example =
    admin_login packages pg-UserLaws hashes half_set jwt sessions (λ claims. ("token-7", refl))
      (λ uuid jti t. refl) admin_entering with_keys seeded started (omega arith) refl refl refl
      (λ e failed. cc)
