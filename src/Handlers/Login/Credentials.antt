-- ===== src/Handlers/Login/Credentials.antt =====
-- internal/handler/user_handler.go, LoginUser: who gets a token, and the session that it names.
use ktauth.Prelude.{
  String, true, Bool-cases, ◌≡◌, ◌⊎◌, refl, ap, subst, inl, inr, str_eq, if◌then◌else◌, [], ◌∷◌,
}
use ktauth.Errors.{Error}
use ktauth.Effects.{Result, ok, err, Op, Result-cases}
use ktauth.Redis.{Env}
use ktauth.Model.{User}
use ktauth.Jwt.{Jwt, new_claims, sign_token}
use ktauth.Identity.Account.{Bcrypt, verify_password}
use ktauth.Gin.{Context, Body, plain, json, str}
use ktauth.Handlers.EmailCodes.{fail_with}
use ktauth.Handlers.Login.{Login, SessionManager, open_session, check_user, login_user}

module _ {W : Type 0} (jwt : Jwt) (env : Env W) (bcrypt : Bcrypt W) (sessions : SessionManager W)
    (get_user_by_name : String → Op W User) (bind : Context → Result Login) where
  -- The request names a user whose password it gives, and the lookup leads to w₁.
  pub record IsKnown (c : Context) (w : W) (user : User) (w₁ : W) : Type 0 where
    pub req : Login
    pub bound : bind c ≡ ok req
    pub found : get_user_by_name req.user w ≡ (ok user, w₁)
    pub password : verify_password bcrypt user.password_hash req.password ≡ true

  abbrev pub token_body : Context → String → Body
  token_body c token =
      if str_eq (c.request.query "format") "string"
      then plain token
      else json (("token", str token) ∷ [])

  -- The claims of the token, which name the user and a new identifier.
  abbrev pub claims_of : User → W → ktauth.Jwt.Claims
  claims_of user w =
      new_claims jwt env user.uuid user.name user.role (env.new_uuid w).0 (env.new_uuid w).1

  -- Signing the token failed, or storing its session.
  pub data IsBroken (user : User) (w₁ : W) : W → Type 0 where
    unsigned :
        (x : Error) → jwt.sign (claims_of user w₁) ≡ err x → IsBroken user w₁ (env.new_uuid w₁).1
    not_stored :
        (token : String) (x : Error) (w' : W)
        → jwt.sign (claims_of user w₁) ≡ ok token
        → sessions.create_session user.uuid (env.new_uuid w₁).0 (env.new_uuid w₁).1 ≡ (err x, w')
        → IsBroken user w₁ w'

  -- The worlds that a request without credentials leaves: nothing was done, or the lookup.
  pub data Asked (c : Context) (w : W) : W → Type 0 where
    unasked : Asked c w w
    looked_up : (req : Login) → bind c ≡ ok req → Asked c w (get_user_by_name req.user w).1

  pub data LoggedIn (c : Context) (w : W) (c' : Context) (w' : W) : Type 0 where
    logged_in :
        (user : User) (w₁ : W) (token : String)
        → IsKnown c w user w₁
        → jwt.sign (claims_of user w₁) ≡ ok token
        → sessions.create_session user.uuid (env.new_uuid w₁).0 (env.new_uuid w₁).1 ≡ (ok tt, w')
        → c'.status ≡ 200
        → c'.body ≡ token_body c token
        → LoggedIn c w c' w'
    unknown :
        ((user : User) (w₁ : W) → ¬ IsKnown c w user w₁)
        → Asked c w w'
        → (c'.status ≡ 400) ⊎ (c'.status ≡ 401)
        → LoggedIn c w c' w'
    broken :
        (user : User) (w₁ : W)
        → IsKnown c w user w₁
        → IsBroken user w₁ w'
        → c'.status ≡ 500
        → c'.body ≡ plain "Server error"
        → LoggedIn c w c' w'

  module _ (c : Context) (w : W) where
    opened :
        (user : User) (w₁ : W) (res : Result (Unit {0})) (w₂ : W) (token : String)
        → IsKnown c w user w₁
        → jwt.sign (claims_of user w₁) ≡ ok token
        → sessions.create_session user.uuid (env.new_uuid w₁).0 (env.new_uuid w₁).1 ≡ (res, w₂)
        → LoggedIn c w
            (open_session jwt env bcrypt sessions get_user_by_name user c w₁).0
            (open_session jwt env bcrypt sessions get_user_by_name user c w₁).1
    unfolding open_session sign_token
    opened user w₁ (ok tt) w₂ token known signed e =
        simp (signed, e)
          (elim (Bool-cases (str_eq (c.request.query "format") "string")) [
            | inl text ↦ rw text (logged_in user w₁ token known signed e refl (rw text refl))
            | inr other ↦ rw other (logged_in user w₁ token known signed e refl (rw other refl))
          ])
    opened user w₁ (err x) w₂ token known signed e =
        simp (signed, e) (broken user w₁ known (not_stored token x w₂ signed e) refl refl)

    open_session-LoggedIn :
        (user : User) (w₁ : W)
        → IsKnown c w user w₁
        → LoggedIn c w
            (open_session jwt env bcrypt sessions get_user_by_name user c w₁).0
            (open_session jwt env bcrypt sessions get_user_by_name user c w₁).1
    unfolding open_session sign_token
    open_session-LoggedIn user w₁ known = elim (Result-cases (jwt.sign (claims_of user w₁))) [
      | inl (token, signed) ↦ opened user w₁ _ _ token known signed refl
      | inr (x, failed) ↦ simp failed (broken user w₁ known (unsigned x failed) refl refl)
    ]

    after_lookup :
        (req : Login) (w₁ : W)
        → bind c ≡ ok req
        → (found : Result User) → get_user_by_name req.user w ≡ (found, w₁)
        → Asked c w w₁
    after_lookup req w₁ bound found e =
        subst (Asked c w) (ap (λ (o : Result User × W). o.1) e) (looked_up req bound)

    check_user-LoggedIn :
        (req : Login) (found : Result User) (w₁ : W)
        → bind c ≡ ok req
        → get_user_by_name req.user w ≡ (found, w₁)
        → LoggedIn c w
            (check_user jwt env bcrypt sessions get_user_by_name req found c w₁).0
            (check_user jwt env bcrypt sessions get_user_by_name req found c w₁).1
    unfolding check_user
    check_user-LoggedIn req (err x) w₁ bound e =
        unknown (λ user w₂ k. cc (k.bound, k.found)) (after_lookup req w₁ bound (err x) e)
          (inr refl)
    check_user-LoggedIn req (ok user) w₁ bound e =
        elim (Bool-cases (verify_password bcrypt user.password_hash req.password)) [
          | inl fits ↦ rw fits (
              open_session-LoggedIn user w₁
                (record { req = req; bound = bound; found = e; password = fits }))
          | inr wrong ↦ rw wrong (
              unknown (λ user' w₂ k. cc (k.bound, k.found, k.password))
                (after_lookup req w₁ bound (ok user) e) (inr refl))
        ]

  -- LoginUser answers 200 exactly with a signed token for a user whose password the request
  -- gives, after the session under the token's user and identifier was stored; without such a
  -- user it answers 400 or 401, and has done nothing but the lookup; and it answers 500 and no
  -- token exactly where the user is known and signing failed, or storing the session did.
  pub login_user-LoggedIn :
      (c : Context) (w : W)
      → LoggedIn c w
          (login_user jwt env bcrypt sessions get_user_by_name bind c w).0
          (login_user jwt env bcrypt sessions get_user_by_name bind c w).1
  unfolding login_user fail_with
  login_user-LoggedIn c w = elim (Result-cases (bind c)) [
    | inr (x, bad) ↦ rw bad (unknown (λ user w₁ k. cc (k.bound)) unasked (inl refl))
    | inl (req, bound) ↦ rw bound (check_user-LoggedIn c w req _ _ bound refl)
  ]
