-- ===== src/Handlers/Login/Held.antt =====
-- internal/handler/user_handler.go over internal/service/identity/account.go and
-- internal/repository/user_repo.go: the login to an account whose row is in the table.
use ktauth.Prelude.{
  String, true, length, Bool-cases, Option, none, some, ◌≡◌, ◌≢◌, refl, ap, inl, inr, arith, str_eq,
}
use ktauth.Errors.{Error}
use ktauth.Effects.{Result, ok, err}
use ktauth.Redis.{Env}
use ktauth.Net.Parse.{codes}
use ktauth.Model.{User}
use ktauth.Postgres.{Postgres, select_user}
use ktauth.Postgres.Laws.{UserLaws}
use ktauth.Repository.UserRepo
use ktauth.Identity.Account
use ktauth.Identity.Account.{Bcrypt, UserStore, hash_password, verify_password}
use ktauth.Jwt.{Jwt, Claims, new_claims, sign_token}
use ktauth.Gin.{Context}
use ktauth.Handlers.Login.{Login, SessionManager, login_user, check_user, open_session}
use ktauth.Handlers.Login.Credentials.{LoggedIn, claims_of, token_body, login_user-LoggedIn}

-- UserRepo, as main.go gives it to NewAccountService.
abbrev pub users_of : {W : Type 0} → Postgres W → UserStore W
users_of pg = record {
  new_user = UserRepo.new_user pg;
  get_user_by_name = UserRepo.get_user_by_name pg;
  update_user = UserRepo.update pg;
}

module _ {W : Type 0} (bcrypt : Bcrypt W) where
  -- bcrypt's hash of a password fits it, and has 60 characters.
  pub record Hashes (hash password : String) : Type 0 where
    pub fitting : bcrypt.compare hash password ≡ none
    pub long : length (codes hash) ≡ 60

  -- The row of an account: its password fits the hash.
  pub record IsAccount (name password uuid role : String) (email : Option String)
      (found : Option User) : Type 0 where
    pub hash : String
    pub fitting : bcrypt.compare hash password ≡ none
    pub held :
        found
        ≡ some
            (record { uuid = uuid; name = name; password_hash = hash; email = email; role = role })

module _ {W : Type 0} {pg : Postgres W} {row : W → String → Option User} (l : UserLaws pg row)
    (env : Env W) (bcrypt : Bcrypt W) where
  module _ (jwt : Jwt) (sessions : SessionManager W)
      (signs : (claims : Claims) → (token : String) × (jwt.sign claims ≡ ok token))
      (stores : (uuid jti : String) (w : W) → (sessions.create_session uuid jti w).0 ≡ ok tt) where
    abbrev lookup : String → W → Result User × W
    lookup = Account.get_user_by_name bcrypt env (users_of pg)

    -- Where signing and storing do not fail, a session is opened.
    opened-200 :
        (user : User) (c : Context) (w : W)
        → (open_session jwt env bcrypt sessions lookup user c w).0.status ≡ 200
    unfolding open_session sign_token
    opened-200 user c w =
        let (token, signed) = signs (
          new_claims jwt env user.uuid user.name user.role (env.new_uuid w).0 (env.new_uuid w).1) in
        let stored = stores user.uuid (env.new_uuid w).0 (env.new_uuid w).1 in
        simp (signed, stored)
          (elim (Bool-cases (str_eq (c.request.query "format") "string")) [
            | inl text ↦ rw text refl
            | inr other ↦ rw other refl
          ])

    -- The lookup of a row that is there, where it does not fail.
    lookup-row :
        (name : String) (user : User) (w : W)
        → row w name ≡ some user
        → ((e : Error) → (pg.row_user (select_user name) w).0 ≢ err e)
        → (lookup name w).0 ≡ ok user
    unfolding Account.get_user_by_name UserRepo.get_user_by_name
    lookup-row name user w held answers = elim (l.select_user-row name user w held) [
      | inl there ↦ rw there refl
      | inr (e, failed) ↦ absurd (answers e failed)
    ]

    compare-none :
        (hash password : String)
        → bcrypt.compare hash password ≡ none
        → verify_password bcrypt hash password ≡ true
    unfolding verify_password
    compare-none hash password fitting = rw (verify_password, fitting) refl

    check-200 :
        (c : Context) (w : W) (req : Login) (user : User)
        → verify_password bcrypt user.password_hash req.password ≡ true
        → (check_user jwt env bcrypt sessions lookup req (ok user) c w).0.status ≡ 200
    unfolding check_user
    check-200 c w req user fitting = rw fitting (opened-200 user c w)

    login-200 :
        (bind : Context → Result Login) (c : Context) (w : W) (req : Login) (user : User)
        → bind c ≡ ok req
        → (lookup req.user w).0 ≡ ok user
        → bcrypt.compare user.password_hash req.password ≡ none
        → (login_user jwt env bcrypt sessions lookup bind c w).0.status ≡ 200
    unfolding login_user
    login-200 bind c w req user bound found fitting =
        rw (bound, found)
          (check-200 c (lookup req.user w).1 req user
            (compare-none user.password_hash req.password fitting))

    -- LoginUser answers with a token of the user.
    abbrev pub Welcomed : (Context → Result Login) → Context → W → User → Type 0
    Welcomed bind c w user =
        let out = (login_user jwt env bcrypt sessions lookup bind c w).0 in
        (token : String) × (w₁ : W) × (jwt.sign
            (claims_of jwt env bcrypt sessions lookup bind user w₁)
          ≡ ok token)
        × (out.status ≡ 200)
        × (out.body ≡ token_body jwt env bcrypt sessions lookup bind c token)

    -- The login to an account whose row is there, where the lookup does not fail.
    pub account_login :
        (bind : Context → Result Login) (c : Context) (w : W) (name password uuid role : String)
        (email : Option String)
        → bind c ≡ ok (record { user = name; password = password })
        → IsAccount bcrypt name password uuid role email (row w name)
        → ((e : Error) → (pg.row_user (select_user name) w).0 ≢ err e)
        → (user : User) × (user.uuid ≡ uuid)
          × (user.name ≡ name)
          × (user.role ≡ role)
          × Welcomed bind c w user
    account_login bind c w name password uuid role email bound account answers =
        let made : User = record {
          uuid = uuid;
          name = name;
          password_hash = account.hash;
          email = email;
          role = role;
        } in
        let found = lookup-row name made w account.held answers in
        let request : Login = record { user = name; password = password } in
        let code = login-200 bind c w request made bound found account.fitting in
        elim (login_user-LoggedIn jwt env bcrypt sessions lookup bind c w) [
          | LoggedIn.logged_in user w₃ token known signed stored fine body ↦
              let asked : known.req ≡ request = cc (known.bound, bound) in
              let same : user ≡ made = cc (
                ap (λ (q : Login). (lookup q.user w).0) asked,
                ap (λ (o : Result User × W). o.0) known.found,
                found,
              ) in
              (
                user,
                ap (λ (u : User). u.uuid) same,
                ap (λ (u : User). u.name) same,
                ap (λ (u : User). u.role) same,
                (token, w₃, signed, fine, body),
              )
          | LoggedIn.unknown nobody after bad ↦ elim bad [
            | inl a ↦ absurd (omega arith)
            | inr b ↦ absurd (omega arith)
          ]
          | LoggedIn.broken user w₃ known why bad body ↦ absurd (omega arith)
        ]
