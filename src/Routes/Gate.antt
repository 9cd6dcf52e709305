-- ===== src/Routes/Gate.antt =====
-- The gateway's endpoints /kt/0 and /kt/1 of cmd/ktauth/main.go, and what a route's guards let through.
use mathlib.Core.Path.{◌∙◌, ap, ap₂}
use ktauth.Prelude.{
  ℕ, Bool, true, false, List, [], ◌∷◌, ◌≡◌, ◌≢◌, ◌⊎◌, ◌↔◌, refl, inl, inr, arith, eq_iff,
}
use ktauth.Effects.{Result, ok}
use ktauth.Model.{IpRuleType, ip_white_list, ip_grey_list}
use ktauth.Gin.{Context, Handler, Request, fresh_context}
use ktauth.Gin.Engine.{Engine, serve-abort, serve-pass, serve-last}
use ktauth.Middleware.CheckIp.{acl}
use ktauth.Middleware.CheckIp.Admitting.{Admission, acl-Admission}
use ktauth.Middleware.RateLimit.{rate_limit}
use ktauth.Middleware.RateLimit.Passing.{Passage, rate_limit-Passage}
use ktauth.Routes.{Guards, public_chain, strict_chain, no_content}

white_not_grey : {r : Result IpRuleType} → r ≡ ok ip_white_list → r ≡ ok ip_grey_list → ⊥
white_not_grey a b = ground (arith, eq_iff "whitelist" "greylist")

module _ {W : Type 0} (engine : Engine W) (g : Guards W) where
  -- What the querier answers for the client of a request.
  abbrev pub rule_of : Request → W → Result IpRuleType
  rule_of req w = (g.querier.query_rule req.client_ip w).0

  abbrev pub admitted : Request → IpRuleType → Bool → Context
  admitted req rule white = record (fresh_context req) { rule = rule; whitelist = white }

  -- Whatever follows ACL on a route, a refused request never gets there.
  pub acl_stops :
      (level : ℕ) (hs : List (Handler W)) (req : Request) (w : W)
      → (acl g.querier level (fresh_context req) w).0.aborted ≡ true
      → engine.serve (acl g.querier level ∷ hs) (fresh_context req) w
        ≡ acl g.querier level (fresh_context req) w
  acl_stops level hs req w stop =
      serve-abort engine (acl g.querier level) (fresh_context req) w hs stop

  pub acl_passes :
      (level : ℕ) (hs : List (Handler W)) (req : Request) (w : W) (rule : IpRuleType) (white : Bool)
      → (acl g.querier level (fresh_context req) w).0 ≡ admitted req rule white
      → engine.serve (acl g.querier level ∷ hs) (fresh_context req) w
        ≡ engine.serve hs (admitted req rule white) (g.querier.query_rule req.client_ip w).1
  acl_passes level hs req w rule white e =
      serve-pass engine (acl g.querier level) (fresh_context req) w hs
        (ap (λ (c : Context). c.aborted) e)
      ∙ ap₂ (engine.serve hs) e (acl-Admission g.querier level (fresh_context req) w).1

  ends_204 : (c : Context) (w : W) → (engine.serve (no_content ∷ []) c w).0.status ≡ 204
  unfolding no_content
  ends_204 c w = rw (serve-last engine no_content c w)

  -- A request that ACL refuses is answered by 403 or 500.
  acl_refusal :
      (level : ℕ) (hs : List (Handler W)) (req : Request) (w : W)
      → let c = (acl g.querier level (fresh_context req) w).0 in
        c.aborted ≡ true
        → (c.status ≡ 403) ⊎ (c.status ≡ 500)
        → (engine.serve (acl g.querier level ∷ hs) (fresh_context req) w).0.status ≢ 204
  acl_refusal level hs req w stop code s =
      let s' = rw (acl_stops level hs req w stop) at s in
      elim code [ inl e ↦ omega arith | inr e ↦ omega arith ]

  -- GET /kt/1 answers 204 exactly for addresses whose rule is whitelist.
  kt_1_iff :
      (req : Request) (w : W)
      → ((engine.serve (strict_chain g no_content) (fresh_context req) w).0.status ≡ 204)
        ↔ (rule_of req w ≡ ok ip_white_list)
  kt_1_iff req w = elim (acl-Admission g.querier 1 (fresh_context req) w).0 [
    | Admission.white is_white e ↦
        (λ s. is_white, λ r. rw (acl_passes 1 _ req w ip_white_list true e) (ends_204 _ _))
    | Admission.grey is_grey low e ↦ absurd (low refl)
    | Admission.refused stop code not_white _ ↦
        (λ s. absurd (acl_refusal 1 (no_content ∷ []) req w stop code s), λ r. absurd (not_white r))
  ]

  -- The limiter's answer, in the world that the lookup of the rule leaves.
  abbrev pub allowed_of : Request → W → Result Bool
  allowed_of req w = (g.limiter.allow req.client_ip (g.querier.query_rule req.client_ip w).1).0

  white_passes :
      (req : Request) (w : W)
      → (engine.serve
          (rate_limit g.limiter g.adder ∷ no_content ∷ [])
          (admitted req ip_white_list true)
          w).0.status
        ≡ 204
  white_passes req w =
      elim (rate_limit-Passage g.limiter g.adder (admitted req ip_white_list true) w) [
        | Passage.exempt _ e _ ↦
            rw
              (serve-pass engine (rate_limit g.limiter g.adder) _ w (no_content ∷ [])
                (ap (λ (c : Context). c.aborted) e))
              (ends_204 _ _)
        | Passage.within_limit grey _ _ ↦ absurd (cc)
        | Passage.over_limit grey _ _ _ _ ↦ absurd (cc)
        | Passage.unavailable grey _ _ _ ↦ absurd (cc)
      ]

  grey_passes_iff :
      (req : Request) (w : W)
      → ((engine.serve
            (rate_limit g.limiter g.adder ∷ no_content ∷ [])
            (admitted req ip_grey_list false)
            w).0.status
          ≡ 204)
        ↔ ((g.limiter.allow req.client_ip w).0 ≡ ok true)
  grey_passes_iff req w =
      elim (rate_limit-Passage g.limiter g.adder (admitted req ip_grey_list false) w) [
        | Passage.exempt white _ _ ↦ absurd (cc)
        | Passage.within_limit _ allow e ↦ (
          λ s. ap (λ (x : Result Bool × W). x.0) allow,
          λ r.
              rw
                (serve-pass engine (rate_limit g.limiter g.adder) _ w (no_content ∷ [])
                  (ap (λ (c : Context). c.aborted) e))
                (ends_204 _ _),
        )
        | Passage.over_limit _ deny stop code _ ↦ (
          λ s.
              let s' =
                rw (serve-abort engine (rate_limit g.limiter g.adder) _ w (no_content ∷ []) stop) at
                  s in
              absurd (omega arith),
          λ r. absurd (cc (ap (λ (x : Result Bool × W). x.0) deny)),
        )
        | Passage.unavailable _ failed stop code ↦ (
          λ s.
              let s' =
                rw (serve-abort engine (rate_limit g.limiter g.adder) _ w (no_content ∷ []) stop) at
                  s in
              absurd (omega arith),
          λ r. absurd (cc (ap (λ (x : Result Bool × W). x.0) failed)),
        )
      ]

  -- GET /kt/0 answers 204 exactly for addresses whose rule is whitelist, and for greylisted ones
  -- that the limiter allows.
  kt_0_iff :
      (req : Request) (w : W)
      → ((engine.serve (public_chain g no_content) (fresh_context req) w).0.status ≡ 204) ↔ (
          (rule_of req w ≡ ok ip_white_list)
          ⊎ ((rule_of req w ≡ ok ip_grey_list) × (allowed_of req w ≡ ok true)))
  kt_0_iff req w = elim (acl-Admission g.querier 0 (fresh_context req) w).0 [
    | Admission.white is_white e ↦ (
      λ s. inl is_white,
      λ r. rw (acl_passes 0 _ req w ip_white_list true e) (white_passes req _),
    )
    | Admission.grey is_grey low e ↦ (
      λ s. inr (
        is_grey,
        (grey_passes_iff req _).0 (rw (acl_passes 0 _ req w ip_grey_list false e) at s),
      ),
      λ r. rw (acl_passes 0 _ req w ip_grey_list false e) (
          (grey_passes_iff req _).1 (elim r [
            | inl is_white ↦ absurd (white_not_grey is_white is_grey)
            | inr (_, allow) ↦ allow
          ])),
    )
    | Admission.refused stop code not_white not_grey ↦ (
      λ s. absurd (acl_refusal 0 _ req w stop code s),
      λ r. elim r [
        | inl is_white ↦ absurd (not_white is_white)
        | inr (is_grey, _) ↦ absurd (omega (arith, not_grey is_grey))
      ],
    )
  ]

  -- GET /kt/0 answers 204 exactly for addresses whose rule is whitelist, and for greylisted ones
  -- that the limiter allows; GET /kt/1 answers 204 exactly for addresses whose rule is whitelist.
  pub gateway_iff :
      (req : Request) (w : W)
      → (((engine.serve (public_chain g no_content) (fresh_context req) w).0.status ≡ 204) ↔ (
          (rule_of req w ≡ ok ip_white_list)
          ⊎ ((rule_of req w ≡ ok ip_grey_list) × (allowed_of req w ≡ ok true))))
        × (((engine.serve (strict_chain g no_content) (fresh_context req) w).0.status ≡ 204)
            ↔ (rule_of req w ≡ ok ip_white_list))
  gateway_iff req w = (kt_0_iff req w, kt_1_iff req w)
