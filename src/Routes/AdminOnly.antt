-- ===== src/Routes/AdminOnly.antt =====
-- internal/router/admin_router.go and token_router.go: who reaches the handlers for administrators.
use mathlib.Core.Path.{◌∙◌, ap, ap₂}
use ktauth.Prelude.{true, List, [], ◌∷◌, ◌++◌, All, ◌≡◌, ◌⊎◌, refl, inl, inr}
use ktauth.Effects.{ok}
use ktauth.Jwt.{Claims}
use ktauth.Model.{ip_white_list}
use ktauth.Gin.{Context, Handler, Request, fresh_context}
use ktauth.Gin.Engine.{Engine, serve-abort, serve-pass, serve-last}
use ktauth.Middleware.CheckIp.{acl}
use ktauth.Middleware.CheckIp.Admitting.{Admission, acl-Admission}
use ktauth.Middleware.Auth.{verify_session}
use ktauth.Middleware.Auth.Entering.{IsVerified, Entry, verify_session-Entry}
use ktauth.Routes.{Guards, Route, admin_chain, token_routes, admin_routes}
use ktauth.Routes.Gate.{rule_of, admitted, acl_stops, acl_passes}

module _ {W : Type 0} (engine : Engine W) (g : Guards W) where
  -- The context that VerifySession sees, and the world then.
  abbrev pub at_session : Request → Context
  at_session req = admitted engine g req ip_white_list true

  abbrev pub after_acl : Request → W → W
  after_acl req w = (g.querier.query_rule req.client_ip w).1

  -- A whitelisted address, and a stored session of an administrator.
  pub record IsAdmin (req : Request) (w : W) (claims : Claims) : Type 0 where
    pub whitelisted : rule_of engine g req w ≡ ok ip_white_list
    pub verified :
        IsVerified g.jwt g.env g.sessions "admin" (at_session req) (after_acl req w) claims
    pub is_admin : claims.role ≡ "admin"

  -- Aborted with an error status.
  abbrev pub IsRefused : Context → Type 0
  IsRefused c = (c.aborted ≡ true) × ((c.status ≡ 401) ⊎ ((c.status ≡ 403) ⊎ (c.status ≡ 500)))

  -- What a route for administrators does with a request: it runs the handler, or refuses with a result
  -- that no handler changes.
  pub data AdminGate (req : Request) (w : W) : Type 0 where
    reached :
        (claims : Claims)
        → IsAdmin req w claims
        → ((h : Handler W)
            → engine.serve (admin_chain g h) (fresh_context req) w
              ≡ h
                  (record (at_session req) { uuid = claims.uuid; jti = claims.id })
                  (g.sessions.get_session claims.uuid claims.id (after_acl req w)).1)
        → AdminGate req w
    refused :
        (c' : Context) (w' : W)
        → IsRefused c'
        → ((claims : Claims) → ¬ IsAdmin req w claims)
        → ((h : Handler W) → engine.serve (admin_chain g h) (fresh_context req) w ≡ (c', w'))
        → AdminGate req w

  abbrev verify : Handler W
  verify = verify_session g.jwt g.env g.sessions "admin"

  behind_acl :
      (req : Request) (w : W)
      → rule_of engine g req w ≡ ok ip_white_list
      → (acl g.querier 1 (fresh_context req) w).0 ≡ at_session req
      → AdminGate req w
  behind_acl req w is_white e =
      elim (verify_session-Entry g.jwt g.env g.sessions "admin" (at_session req)
        (after_acl req w)) [
          | Entry.entered claims v same after ↦
              reached claims
                (record { whitelisted = is_white; verified = v; is_admin = v.role refl })
                (λ h.
                  acl_passes engine g 1 (verify ∷ h ∷ []) req w ip_white_list true e
                  ∙ serve-pass engine verify (at_session req) (after_acl req w) (h ∷ [])
                      (ap (λ (c : Context). c.aborted) same)
                  ∙ serve-last engine h _ _
                  ∙ ap₂ h same after)
          | Entry.rejected stop code unverified ↦
              refused _ _ (stop, inl code) (λ claims a. unverified claims a.verified)
                (λ h.
                  acl_passes engine g 1 (verify ∷ h ∷ []) req w ip_white_list true e
                  ∙ serve-abort engine verify (at_session req) (after_acl req w) (h ∷ []) stop)
        ]

  -- A route for administrators runs its handler exactly for requests from whitelisted addresses
  -- with a stored session of an administrator; all others get 401, 403 or 500, and then its
  -- handler has no effect.
  pub admin_chain-AdminGate : (req : Request) (w : W) → AdminGate req w
  admin_chain-AdminGate req w = elim (acl-Admission g.querier 1 (fresh_context req) w).0 [
    | Admission.white is_white e ↦ behind_acl req w is_white e
    | Admission.grey _ low _ ↦ absurd (low refl)
    | Admission.refused stop code not_white _ ↦
        refused _ _ (stop, inr code) (λ claims a. not_white a.whitelisted)
          (λ h. acl_stops engine g 1 (verify ∷ h ∷ []) req w stop)
  ]

  -- Only administrators get another answer than a refusal.
  abbrev pub IsAdminOnly : List (Handler W) → Type 0
  IsAdminOnly handlers =
      (req : Request) (w : W)
      → ((claims : Claims) → ¬ IsAdmin req w claims)
      → IsRefused (engine.serve handlers (fresh_context req) w).0

  admin_chain-IsAdminOnly : (h : Handler W) → IsAdminOnly (admin_chain g h)
  admin_chain-IsAdminOnly h req w nobody = elim (admin_chain-AdminGate req w) [
    | AdminGate.reached claims a _ ↦ absurd (nobody claims a)
    | AdminGate.refused c' w' r _ e ↦ rw (e h) r
  ]

  -- Every route of the token, IP rule and user administration refuses, with 401, 403 or 500, each
  -- request that is not an administrator's from a whitelisted address.
  pub admin_routes-IsAdminOnly :
      (restock flush one all list delete add users : Handler W)
      → All
          (λ (route : Route W). IsAdminOnly route.handlers)
          (token_routes g restock flush one all ++ admin_routes g list delete add users)
  unfolding token_routes admin_routes
  admin_routes-IsAdminOnly restock flush one all list delete add users = (
    admin_chain-IsAdminOnly restock,
    (
      admin_chain-IsAdminOnly flush,
      (
        admin_chain-IsAdminOnly one,
        (
          admin_chain-IsAdminOnly all,
          (
            admin_chain-IsAdminOnly list,
            (
              admin_chain-IsAdminOnly delete,
              (admin_chain-IsAdminOnly add, (admin_chain-IsAdminOnly users, tt)),
            ),
          ),
        ),
      ),
    ),
  )
