-- ===== src/Middleware/Auth/Entering.antt =====
-- internal/middleware/auth.go: whom VerifySession lets through.
use ktauth.Prelude.{
  String, true, ◌&&◌, not, Bool-cases, Option-cases, str_eq, ◌≡◌, refl, inl, inr, arith, some, ap,
  ◌∙◌, subst, sym, eq_iff,
}
use ktauth.Effects.{ok, Result-cases}
use ktauth.Redis.{Env}
use ktauth.Jwt.{Jwt, Claims, parse_token}
use ktauth.Gin.{Context}
use ktauth.Middleware.Auth.{SessionReader, strip_prefix, check_role, check_session, verify_session}

module _ {W : Type 0} (jwt : Jwt) (env : Env W) (reader : SessionReader W)
    (require_role : String) where
  -- A bearer token that parses, whose session is stored for its user, and whose role is enough.
  pub record IsVerified (c : Context) (w : W) (claims : Claims) : Type 0 where
    pub token : String
    pub bearer : strip_prefix "Bearer " (c.request.header "Authorization") ≡ some token
    pub parsed : parse_token jwt env token w ≡ ok claims
    pub stored : (reader.get_session claims.uuid claims.id w).0 ≡ ok claims.uuid
    pub role : require_role ≡ "admin" → claims.role ≡ "admin"

  pub data Entry (c : Context) (w : W) (c' : Context) (w' : W) : Type 0 where
    entered :
        (claims : Claims)
        → IsVerified c w claims
        → c' ≡ record c { uuid = claims.uuid; jti = claims.id }
        → w' ≡ (reader.get_session claims.uuid claims.id w).1
        → Entry c w c' w'
    rejected :
        c'.aborted ≡ true
        → c'.status ≡ 401
        → ((claims : Claims) → ¬ IsVerified c w claims)
        → Entry c w c' w'

  -- A parsed token has one reading.
  claims_unique :
      {c : Context} {w : W} {token : String} {claims claims' : Claims}
      → strip_prefix "Bearer " (c.request.header "Authorization") ≡ some token
      → parse_token jwt env token w ≡ ok claims
      → IsVerified c w claims'
      → claims' ≡ claims
  claims_unique bearer parsed v = cc (v.bearer, v.parsed)

  module _ (c : Context) (w : W) (token : String) (claims : Claims)
      (bearer : strip_prefix "Bearer " (c.request.header "Authorization") ≡ some token)
      (parsed : parse_token jwt env token w ≡ ok claims) where
    -- No other claims, and these only with their session and their role.
    not_verified :
        (((reader.get_session claims.uuid claims.id w).0 ≡ ok claims.uuid)
          → (require_role ≡ "admin" → claims.role ≡ "admin")
          → ⊥)
        → (claims' : Claims) → ¬ IsVerified c w claims'
    not_verified lacking claims' v =
        let e = claims_unique bearer parsed v in
        lacking
          (subst (λ (k : Claims). (reader.get_session k.uuid k.id w).0 ≡ ok k.uuid) e v.stored)
          (subst (λ (k : Claims). require_role ≡ "admin" → k.role ≡ "admin") e v.role)

    check_role-Entry :
        (reader.get_session claims.uuid claims.id w).0 ≡ ok claims.uuid
        → Entry c w
            (check_role require_role claims c)
            (reader.get_session claims.uuid claims.id w).1
    unfolding check_role
    check_role-Entry stored =
        elim (Bool-cases (str_eq require_role "admin" && not (str_eq claims.role "admin"))) [
          | inl lacks ↦ rw lacks (
              rejected refl refl (
                not_verified (λ _ role.
                  ground (arith, eq_iff require_role "admin", eq_iff claims.role "admin"))))
          | inr enough ↦ rw enough (
              entered claims
                (record {
                  token = token;
                  bearer = bearer;
                  parsed = parsed;
                  stored = stored;
                  role = λ admin.
                      ground (arith, eq_iff require_role "admin", eq_iff claims.role "admin");
                })
                refl refl)
        ]

    check_session-Entry :
        Entry c w
          (check_session jwt env reader require_role claims c w).0
          (check_session jwt env reader require_role claims c w).1
    unfolding check_session
    check_session-Entry = elim (Result-cases (reader.get_session claims.uuid claims.id w).0) [
      | inr (x, failed) ↦ rw failed (rejected refl refl (not_verified (λ stored _. cc)))
      | inl (uuid, found) ↦ elim (Bool-cases (str_eq claims.uuid uuid)) [
        | inl same ↦
            let e = (eq_iff claims.uuid uuid).0 same in
            rw (found, same) (check_role-Entry (found ∙ ap ok (sym e)))
        | inr other ↦
            rw (found, other)
              (rejected refl refl
                (not_verified (λ stored _. ground (arith, eq_iff claims.uuid uuid))))
      ]
    ]

  -- VerifySession lets a request through exactly if its bearer token parses, the session of its
  -- claims is stored for their user and the role is enough, with the keys of that user, and
  -- aborts any other with 401.
  pub verify_session-Entry :
      (c : Context) (w : W)
      → Entry c w
          (verify_session jwt env reader require_role c w).0
          (verify_session jwt env reader require_role c w).1
  unfolding verify_session
  verify_session-Entry c w =
      elim (Option-cases (strip_prefix "Bearer " (c.request.header "Authorization"))) [
        | inl missing ↦
            rw (missing, verify_session) (rejected refl refl (λ claims v. cc (v.bearer)))
        | inr (token, bearer) ↦ elim (Result-cases (parse_token jwt env token w)) [
          | inr (x, failed) ↦
              rw (bearer, verify_session, failed)
                (rejected refl refl (λ claims v. cc (v.bearer, v.parsed)))
          | inl (claims, parsed) ↦
              rw (bearer, verify_session, parsed)
                (check_session-Entry c w token claims bearer parsed)
        ]
      ]
