-- ===== src/Handlers/Login/Lifecycle.antt =====
-- internal/handler/user_handler.go, internal/middleware/auth.go and session_repo.go: a session from the
-- login that creates it to the logout that ends it.
use ktauth.Prelude.{
  ◌+◌, ◌<◌, String, true, false, Bool-cases, none, some, ltb, ◌≡◌, ◌∙◌, ◌↔◌, refl, inl, inr, ap,
  subst, arith, if◌then◌else◌,
}
use ktauth.Errors.{Error, is_redis_nil}
use ktauth.Effects.{ok, err, Result-cases}
use ktauth.Redis.{Redis, Env}
use ktauth.Redis.Laws.{View, text, Untouched, StringLaws}
use ktauth.Repository.Keys.{session_key, session_ttl, create_session, get_session, del_session}
use ktauth.Jwt.{Jwt, Claims, parse_token}
use ktauth.Gin.{Context}
use ktauth.Middleware.Auth.{strip_prefix, verify_session}
use ktauth.Middleware.Auth.Entering.{Entry, verify_session-Entry}
use ktauth.Handlers.Login.{logout_user}
use ktauth.Identity.Session.{session_manager, session_reader}

module _ {W : Type 0} (r : Redis W) (env : Env W) (v : View W) where
  open v use {live, clock}

  -- Nothing wrote to the session's key between w and w'.
  abbrev pub Kept : String → String → W → W → Type 0
  Kept uuid jti = Untouched r env v (session_key uuid jti)

module _ {W : Type 0} {r : Redis W} {env : Env W} {v : View W} (l : StringLaws r env v)
    (jwt : Jwt) where
  open v use {live, clock}

  logout-deleted :
      (c : Context) (w : W)
      → (logout_user (session_manager r) c w).0.status ≡ 200
      → (r.del (session_key c.uuid c.jti) w).0 ≡ ok tt
  unfolding logout_user del_session
  logout-deleted c w done = elim (Result-cases (r.del (session_key c.uuid c.jti) w).0) [
    | inl (tt, gone) ↦ gone
    | inr (x, failed) ↦ absurd (let bad = rw failed at done in omega arith)
  ]

  logout-world :
      (c : Context) (w : W)
      → (logout_user (session_manager r) c w).1 ≡ (r.del (session_key c.uuid c.jti) w).1
  unfolding logout_user del_session
  logout-world c w = refl

  -- Once LogoutUser has answered 200 to a session, VerifySession aborts every request with a
  -- token of that session with 401, at any later time until something writes the session's key
  -- again; given the documented behaviour of the Redis commands.
  pub logout_revokes :
      (c c₂ : Context) (w w₂ : W) (require_role token : String) (claims : Claims)
      → (logout_user (session_manager r) c w).0.status ≡ 200
      → Kept r env v c.uuid c.jti (logout_user (session_manager r) c w).1 w₂
      → strip_prefix "Bearer " (c₂.request.header "Authorization") ≡ some token
      → parse_token jwt env token w₂ ≡ ok claims
      → claims.uuid ≡ c.uuid
      → claims.id ≡ c.jti
      → let out = verify_session jwt env (session_reader r) require_role c₂ w₂ in
        (out.0.aborted ≡ true) × (out.0.status ≡ 401)
  unfolding get_session
  logout_revokes c c₂ w w₂ require_role token claims done kept bearer parsed uuid jti =
      let kept' = rw (logout-world c w) at kept in
      let key = session_key c.uuid c.jti in
      let before = l.delete-clock key w in
      let gone : live w₂ (clock w₂) key ≡ none =
        kept'.same (clock w₂) (omega arith)
        ∙ l.delete-live key w (clock w₂) (logout-deleted c w done) (omega (arith, kept'.later)) in
      elim (verify_session-Entry jwt env (session_reader r) require_role c₂ w₂) [
        | Entry.rejected stop code _ ↦ (stop, code)
        | Entry.entered claims' entry _ _ ↦
            let one : claims' ≡ claims = cc (entry.bearer, entry.parsed) in
            let stored =
              l.get-ok (session_key claims'.uuid claims'.id) claims'.uuid w₂ entry.stored in
            let same : session_key claims'.uuid claims'.id ≡ key = cc in
            absurd (cc (rw same at stored))
      ]

  created-live :
      (uuid jti : String) (w w₂ : W)
      → (create_session r uuid jti w).0 ≡ ok tt
      → Kept r env v uuid jti (create_session r uuid jti w).1 w₂
      → live w₂ (clock w₂) (session_key uuid jti)
        ≡ (if ltb (clock w₂) (clock w + session_ttl) then some (text uuid) else none)
  unfolding create_session
  created-live uuid jti w w₂ created kept =
      let key = session_key uuid jti in
      let before = l.set-clock key uuid session_ttl w in
      kept.same (clock w₂) (omega arith)
      ∙ l.set-live key uuid session_ttl w (clock w₂) created (omega (arith, kept.later))

  -- While GET fails for no other reason than a missing key, a session that was created admits
  -- each token of its user and identifier, whose role is enough, for exactly 144 hours, if
  -- nothing else writes its key: VerifySession then sets the keys of the user, and neither aborts
  -- nor answers; given the documented behaviour of the Redis commands.
  pub session_lifetime :
      (c₂ : Context) (w w₂ : W) (require_role token : String) (claims : Claims)
      → (create_session r claims.uuid claims.id w).0 ≡ ok tt
      → Kept r env v claims.uuid claims.id (create_session r claims.uuid claims.id w).1 w₂
      → ((e : Error)
          → (r.get (session_key claims.uuid claims.id) w₂).0 ≡ err e
          → is_redis_nil e ≡ true)
      → c₂.aborted ≡ false
      → strip_prefix "Bearer " (c₂.request.header "Authorization") ≡ some token
      → parse_token jwt env token w₂ ≡ ok claims
      → (require_role ≡ "admin" → claims.role ≡ "admin")
      → ((verify_session jwt env (session_reader r) require_role c₂ w₂).0
          ≡ record c₂ { uuid = claims.uuid; jti = claims.id })
        ↔ (clock w₂ < clock w + session_ttl)
  unfolding get_session
  session_lifetime c₂ w w₂ require_role token claims created kept answers running bearer parsed
        role =
      let key = session_key claims.uuid claims.id in
      let held = created-live claims.uuid claims.id w w₂ created kept in
      elim (verify_session-Entry jwt env (session_reader r) require_role c₂ w₂) [
        | Entry.entered claims' entry same _ ↦
            let one : claims' ≡ claims = cc (entry.bearer, entry.parsed) in
            let stored =
              l.get-ok (session_key claims'.uuid claims'.id) claims'.uuid w₂ entry.stored in
            let here =
              subst
                (λ (k : Claims). live w₂ (clock w₂) (session_key k.uuid k.id) ≡ some (text k.uuid))
                one stored in
            let young =
              elim (Bool-cases (ltb (clock w₂) (clock w + session_ttl)))
                as (λ _. clock w₂ < clock w + session_ttl) [
                  | inl before ↦ ground arith
                  | inr after ↦ absurd (cc (rw after at held))
                ] in
            (
              λ _. young,
              λ _. same ∙ ap (λ (k : Claims). record c₂ { uuid = k.uuid; jti = k.id }) one,
            )
        | Entry.rejected stop _ unverified ↦ (
          λ e. absurd (cc (ap (λ (x : Context). x.aborted) e)),
          λ young.
              let on_time : ltb (clock w₂) (clock w + session_ttl) ≡ true = ground arith in
              let present = rw on_time at held in
              elim (l.get-live key claims.uuid w₂ present) [
                | inl stored ↦ absurd (
                    unverified claims (record {
                      token = token;
                      bearer = bearer;
                      parsed = parsed;
                      stored = stored;
                      role = role;
                    }))
                | inr (e, failed, other) ↦ absurd (let nil = answers e failed in cc)
              ],
        )
      ]
