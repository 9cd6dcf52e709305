-- ===== src/Handlers/Login/Registered.antt =====
-- internal/handler/user_handler.go over internal/service/identity/account.go and
-- internal/repository/user_repo.go: the login of a user who has registered.
use ktauth.Prelude.{
  String, true, ◌≤◌, length, Option, some, Option-cases, ◌≡◌, ◌≢◌, ◌∙◌, sym, ap, subst, inl, inr,
  arith,
}
use ktauth.Errors.{Error}
use ktauth.Effects.{Result, ok, err, Result-cases}
use ktauth.Redis.{Env}
use ktauth.Net.Parse.{codes}
use ktauth.Model.{User}
use ktauth.Postgres.{Postgres, insert_user, select_user}
use ktauth.Postgres.Laws.{UserLaws, IsStorable, is_uuid}
use ktauth.Repository.UserRepo
use ktauth.Identity.Account
use ktauth.Identity.Account.{Bcrypt, UserStore, hash_password, verify_password}
use ktauth.Jwt.{Jwt, Claims}
use ktauth.Gin.{Context}
use ktauth.Handlers.Login.{Login, SessionManager}
use ktauth.Handlers.Register.{Register, RegisterManagers, register_user}
use ktauth.Handlers.Register.Accounts.{Registration, register_user-Registration}
use ktauth.Handlers.Login.Held.{Hashes, users_of, IsAccount, Welcomed, account_login}

module _ {W : Type 0} {pg : Postgres W} {row : W → String → Option User} (l : UserLaws pg row)
    (env : Env W) (bcrypt : Bcrypt W)
    (hashes : (hash password : String) (w : W)
      → (bcrypt.generate password w).0 ≡ ok hash
      → Hashes bcrypt hash password)
    (uuids : (w : W) → is_uuid (env.new_uuid w).0 ≡ true) where
  new_user-row :
      (name password : String) (email : Option String) (uuid : String) (w : W)
      → length (codes name) ≤ 64
      → ((address : String) → email ≡ some address → length (codes address) ≤ 255)
      → (Account.new_user bcrypt env (users_of pg) name password email "user" w).0 ≡ ok uuid
      → IsAccount bcrypt name password uuid "user" email
          (row (Account.new_user bcrypt env (users_of pg) name password email "user" w).1 name)
  unfolding Account.new_user hash_password UserRepo.new_user
  new_user-row name password email uuid w short short_email done =
      let w₁ = (env.new_uuid w).1 in
      let w₂ = (bcrypt.generate password w₁).1 in
      elim (Result-cases (bcrypt.generate password w₁).0) [
        | inr (x, failed) ↦ absurd (cc (rw failed at done))
        | inl (hash, hashed) ↦
            elim (Option-cases
              (pg.exec (insert_user (env.new_uuid w).0 name hash email "user") w₂).0.1) [
                | inr (x, refused) ↦ absurd (cc (rw (hashed, refused) at done))
                | inl fine ↦
                    let one : (env.new_uuid w).0 ≡ uuid = cc (rw (hashed, fine) at done) in
                    let made : User = record {
                      uuid = (env.new_uuid w).0;
                      name = name;
                      password_hash = hash;
                      email = email;
                      role = "user";
                    } in
                    let fit = hashes hash password w₁ hashed in
                    let storable : IsStorable made = record {
                      uuid = uuids w;
                      name = short;
                      password_hash = fit.long;
                      email = short_email;
                      role = omega arith;
                    } in
                    record {
                      hash = hash;
                      fitting = fit.fitting;
                      held = rw hashed (
                          l.insert_user-row made w₂ storable fine
                          ∙ ap (λ (u : String). some (record made { uuid = u })) one);
                    }
              ]
      ]

  -- Whoever RegisterUser answers 201 to has an account.
  registered-IsAccount :
      (h : RegisterManagers W) (bind : Context → Result Register) (c : Context) (w : W)
      (reg : Register)
      → h.new_user ≡ Account.new_user bcrypt env (users_of pg)
      → bind c ≡ ok reg
      → length (codes reg.user) ≤ 64
      → ((address : String) → reg.email ≡ some address → length (codes address) ≤ 255)
      → (register_user h bind c w).0.status ≡ 201
      → (uuid : String) × IsAccount bcrypt reg.user reg.password uuid "user" reg.email
          (row (register_user h bind c w).1 reg.user)
  registered-IsAccount h bind c w reg creates bound short short_email done =
      elim (register_user-Registration h bind c w) [
        | Registration.registered reg' w₁ uuid bound' good new code ↦
            let one : reg' ≡ reg = cc in
            let made : Account.new_user bcrypt env (users_of pg) reg.user reg.password reg.email
                  "user" w₁
                ≡ (ok uuid, (register_user h bind c w).1) =
              ap
                (λ (f : String → String → Option String → String → W → Result String × W).
                  f reg.user reg.password reg.email "user" w₁)
                (sym creates)
              ∙ ap (λ (q : Register). h.new_user q.user q.password q.email "user" w₁) (sym one)
              ∙ new in
            (
              uuid,
              subst
                  (λ x.
                    IsAccount bcrypt reg.user reg.password uuid "user" reg.email (row x reg.user))
                  (ap (λ (o : Result String × W). o.1) made)
                  (new_user-row reg.user reg.password reg.email uuid w₁ short short_email
                    (ap (λ (o : Result String × W). o.0) made)),
            )
        | Registration.not_created reg' w₁ e bound' good failed bad ↦ absurd (omega arith)
        | Registration.refused reg' bound' not_good after bad ↦ elim bad [
          | inl a ↦ absurd (omega arith)
          | inr (inl b) ↦ absurd (omega arith)
          | inr (inr d) ↦ absurd (omega arith)
        ]
        | Registration.malformed e unread code same ↦ absurd (omega arith)
      ]

  module _ (jwt : Jwt) (sessions : SessionManager W)
      (signs : (claims : Claims) → (token : String) × (jwt.sign claims ≡ ok token))
      (stores : (uuid jti : String) (w : W) → (sessions.create_session uuid jti w).0 ≡ ok tt) where
    -- Once RegisterUser has answered 201 for a name of at most 64 characters and an email, if
    -- any, of at most 255, LoginUser with the same name and password answers 200, with a signed
    -- token of an account of that name and of the role user, while the row of that name stays as
    -- it is and neither the lookup, nor signing, nor storing the session fails. This is given the
    -- documented behaviour of INSERT and SELECT on the table users, for values that its columns
    -- hold as they are, that bcrypt's hash of a password fits it and has 60 characters, and that
    -- new identifiers are UUIDs in their canonical form.
    pub registered_login :
        (h : RegisterManagers W) (bind : Context → Result Register) (bind₂ : Context → Result Login)
        (c c₂ : Context) (w w₂ : W) (reg : Register)
        → h.new_user ≡ Account.new_user bcrypt env (users_of pg)
        → bind c ≡ ok reg
        → length (codes reg.user) ≤ 64
        → ((address : String) → reg.email ≡ some address → length (codes address) ≤ 255)
        → (register_user h bind c w).0.status ≡ 201
        → row w₂ reg.user ≡ row (register_user h bind c w).1 reg.user
        → bind₂ c₂ ≡ ok (record { user = reg.user; password = reg.password })
        → ((e : Error) → (pg.row_user (select_user reg.user) w₂).0 ≢ err e)
        → (user : User) × (user.name ≡ reg.user)
          × (user.role ≡ "user")
          × Welcomed l env bcrypt jwt sessions signs stores bind₂ c₂ w₂ user
    registered_login h bind bind₂ c c₂ w w₂ reg creates bound short short_email done stays bound₂
          answers =
        let (uuid, account) =
          registered-IsAccount h bind c w reg creates bound short short_email done in
        let (user, same_uuid, same_name, same_role, token) =
          account_login l env bcrypt jwt sessions signs stores bind₂ c₂ w₂ reg.user reg.password
            uuid "user" reg.email bound₂
            (subst (IsAccount bcrypt reg.user reg.password uuid "user" reg.email) (sym stays)
              account)
            answers in
        (user, same_name, same_role, token)
