-- ===== src/App/AdminLogin.antt =====
-- updateAdmin of cmd/ktauth/main.go: the account of the administrator.
use ktauth.Prelude.{
  String, true, ◌≤◌, length, refl, ◌||◌, ◌==◌, Bool-cases, Option, none, Option-cases, ◌≡◌, ◌≢◌,
  inl, inr, sym, subst, str_eq, arith, if◌then◌else◌,
}
use ktauth.Errors.{Error}
use ktauth.Effects.{Result, ok, err, Result-cases}
use ktauth.Net.Parse.{codes}
use ktauth.Model.{User}
use ktauth.Postgres.{select_user, update_user}
use ktauth.Postgres.Laws.{UserLaws, IsStorable, is_uuid, is_uuid_from}
use ktauth.Repository.UserRepo
use ktauth.Identity.Account
use ktauth.Identity.Account.{hash_password}
use ktauth.Jwt.{Jwt, Claims}
use ktauth.Gin.{Context}
use ktauth.Handlers.Login.{Login, SessionManager}
use ktauth.Handlers.Login.Held.{Hashes, users_of, IsAccount, Welcomed, account_login}
use ktauth.App.{Packages, Settings, update_admin}

-- The name and the password of ADMIN_NAME and ADMIN_PASSWD, or admin and admin where one is not set.
abbrev pub credential : Settings → String → String
credential s set = if str_eq s.admin_name "" || str_eq s.admin_password "" then "admin" else set

abbrev pub admin_uuid : String
admin_uuid = "00000000-0000-0000-0000-000000000000"

module _ {W : Type 0} (p : Packages W) {row : W → String → Option User}
    (l : UserLaws p.postgres row)
    (hashes : (hash password : String) (w : W)
      → (p.bcrypt.generate password w).0 ≡ ok hash
      → Hashes p.bcrypt hash password) where
  update_user-row :
      (uuid name password role : String) (email : Option String) (w : W)
      → is_uuid uuid ≡ true
      → length (codes name) ≤ 64
      → email ≡ none
      → length (codes role) ≤ 32
      → (Account.update_user p.bcrypt p.env (users_of p.postgres) uuid name password email role w).0
        ≡ ok tt
      → IsAccount p.bcrypt name password uuid role email (
          row
            (Account.update_user p.bcrypt p.env
              (users_of p.postgres)
              uuid
              name
              password
              email
              role
              w).1
            name)
  unfolding Account.update_user hash_password UserRepo.update
  update_user-row uuid name password role email w canonical short no_email short_role done =
      let w₁ = (p.bcrypt.generate password w).1 in
      elim (Result-cases (p.bcrypt.generate password w).0) [
        | inr (x, failed) ↦ absurd (cc (rw failed at done))
        | inl (hash, hashed) ↦
            let out = p.postgres.exec (update_user name hash email role uuid) w₁ in
            elim (Option-cases out.0.1) [
              | inr (x, refused) ↦ absurd (cc (rw (hashed, refused) at done))
              | inl fine ↦ elim (Bool-cases (out.0.0 == 0)) [
                | inl nobody ↦ absurd (cc (rw (hashed, fine, nobody) at done))
                | inr found ↦
                    let some_row : out.0.0 ≢ 0 = ground arith in
                    let made : User = record {
                      uuid = uuid;
                      name = name;
                      password_hash = hash;
                      email = email;
                      role = role;
                    } in
                    let fit = hashes hash password w hashed in
                    let storable : IsStorable made = record {
                      uuid = canonical;
                      name = short;
                      password_hash = fit.long;
                      email = λ address there. absurd (cc);
                      role = short_role;
                    } in
                    record {
                      hash = hash;
                      fitting = fit.fitting;
                      held = rw hashed (l.update_user-row made w₁ storable fine some_row);
                    }
              ]
            ]
      ]

  module _ (s : Settings) (jwt : Jwt) (sessions : SessionManager W)
      (signs : (claims : Claims) → (token : String) × (jwt.sign claims ≡ ok token))
      (stores : (uuid jti : String) (w : W) → (sessions.create_session uuid jti w).0 ≡ ok tt) where
    -- Once updateAdmin has answered without an error, LoginUser with ADMIN_NAME and ADMIN_PASSWD,
    -- or with admin and admin where at least one of them is not set, answers 200 with a signed
    -- token of the account with the null identifier and the role admin, while the row of that
    -- name stays as it is and neither the lookup, nor signing, nor storing the session fails.
    -- This is for a name of at most 64 characters, and given the documented behaviour of UPDATE
    -- and SELECT on the table users, for values that its columns hold as they are, and that
    -- bcrypt's hash of a password fits it and has 60 characters.
    pub admin_login :
        (bind : Context → Result Login) (c : Context) (w w₂ : W)
        → length (codes (credential s s.admin_name)) ≤ 64
        → (update_admin p s w).0 ≡ ok tt
        → row w₂ (credential s s.admin_name)
          ≡ row (update_admin p s w).1 (credential s s.admin_name)
        → bind c
          ≡ ok (record {
            user = credential s s.admin_name;
            password = credential s s.admin_password;
          })
        → ((e : Error)
            → (p.postgres.row_user (select_user (credential s s.admin_name)) w₂).0 ≢ err e)
        → (user : User) × (user.uuid ≡ admin_uuid)
          × (user.name ≡ credential s s.admin_name)
          × (user.role ≡ "admin")
          × Welcomed l p.env p.bcrypt jwt sessions signs stores bind c w₂ user
    unfolding update_admin is_uuid_from
    admin_login bind c w w₂ short done stays bound answers =
        let name = credential s s.admin_name in
        let password = credential s s.admin_password in
        let made =
          update_user-row admin_uuid name password "admin" none w refl short refl (omega arith)
            done in
        account_login l p.env p.bcrypt jwt sessions signs stores bind c w₂ name password admin_uuid
          "admin" none bound
          (subst (IsAccount p.bcrypt name password admin_uuid "admin" none) (sym stays) made)
          answers
