-- ===== src/Routes/Visit.antt =====
-- cmd/ktauth/main.go, GET /kt/0: what one request does to the world.
use ktauth.Prelude.{
  ℕ, Bool, true, false, ◌&&◌, not, ◌==◌, List, [], ◌∷◌, ◌≡◌, ◌∙◌, refl, sym, ap, subst, inl, inr,
}
use ktauth.Errors.{Error}
use ktauth.Effects.{Result, ok, err}
use ktauth.Model.{ip_white_list, ip_grey_list}
use ktauth.Gin.{Context, Handler, Request, fresh_context, set_status}
use ktauth.Gin.Engine.{Engine, serve-abort, serve-pass, serve-last}
use ktauth.Middleware.CheckIp.{acl}
use ktauth.Middleware.CheckIp.Admitting.{Admission, acl-Admission}
use ktauth.Middleware.RateLimit.{punish, rate_limit}
use ktauth.Middleware.RateLimit.Passing.{Passage, rate_limit-Passage}
use ktauth.Routes.{Guards, public_chain, no_content}
use ktauth.Routes.Gate.{admitted, acl_stops, acl_passes}

-- A request that was let through and is not whitelisted.
abbrev pub passed_grey : Context → Bool
passed_grey c = c.status == 204 && not c.whitelist

not_passed : (c : Context) (n : ℕ) → c.status ≡ n → (n == 204) ≡ false → passed_grey c ≡ false
not_passed c n code other =
    ap (λ k. k == 204 && not c.whitelist) code ∙ ap (λ b. b && not c.whitelist) other

module _ {W : Type 0} (engine : Engine W) (g : Guards W) where
  abbrev pub visited : Request → W → Context × W
  visited req w = engine.serve (public_chain g no_content) (fresh_context req) w

  -- The world behind the lookup of the rule, and the limiter's answer there.
  abbrev pub after_rule : Request → W → W
  after_rule req w = (g.querier.query_rule req.client_ip w).1

  abbrev pub limited : Request → W → Result Bool × W
  limited req w = g.limiter.allow req.client_ip (after_rule req w)

  abbrev pub grey_context : Request → Context
  grey_context req = admitted engine g req ip_grey_list false

  -- What follows a refusal by 429.
  abbrev pub punished : Request → W → W
  punished req w = punish g.limiter g.adder (grey_context req) w

  -- Whether the limiter was asked, and what became of its answer.
  pub data Visit (req : Request) (w : W) (out : Context × W) : Type 0 where
    unasked : passed_grey out.0 ≡ false → out.1 ≡ after_rule req w → Visit req w out
    within_limit :
        (w₂ : W)
        → limited req w ≡ (ok true, w₂)
        → passed_grey out.0 ≡ true
        → out.1 ≡ w₂
        → Visit req w out
    over_limit :
        (w₂ : W)
        → limited req w ≡ (ok false, w₂)
        → passed_grey out.0 ≡ false
        → out.1 ≡ punished req w₂
        → Visit req w out
    unavailable :
        (e : Error) (w₂ : W)
        → limited req w ≡ (err e, w₂)
        → passed_grey out.0 ≡ false
        → out.1 ≡ w₂
        → Visit req w out

  abbrev limiting : Handler W
  limiting = rate_limit g.limiter g.adder

  -- The end of the chain behind a limiter that goes on, and behind one that aborts.
  passing :
      (c : Context) (w : W)
      → (limiting c w).0.aborted ≡ false
      → engine.serve (limiting ∷ no_content ∷ []) c w
        ≡ (set_status 204 (limiting c w).0, (limiting c w).1)
  unfolding no_content
  passing c w go_on =
      serve-pass engine limiting c w (no_content ∷ []) go_on
      ∙ serve-last engine no_content (limiting c w).0 (limiting c w).1

  stopping :
      (c : Context) (w : W) (n : ℕ)
      → (limiting c w).0.aborted ≡ true
      → (limiting c w).0.status ≡ n
      → (n == 204) ≡ false
      → (passed_grey (engine.serve (limiting ∷ no_content ∷ []) c w).0 ≡ false)
        × ((engine.serve (limiting ∷ no_content ∷ []) c w).1 ≡ (limiting c w).1)
  stopping c w n stop code other =
      let same = serve-abort engine limiting c w (no_content ∷ []) stop in
      (
        ap (λ (o : Context × W). passed_grey o.0) same ∙ not_passed (limiting c w).0 n code other,
        ap (λ (o : Context × W). o.1) same,
      )

  grey-Visit :
      (req : Request) (w : W)
      → Visit req w
          (engine.serve (limiting ∷ no_content ∷ []) (grey_context req) (after_rule req w))
  grey-Visit req w =
      let c = grey_context req in
      let w₁ = after_rule req w in
      elim (rate_limit-Passage g.limiter g.adder c w₁) [
        | Passage.exempt white _ _ ↦ absurd (cc)
        | Passage.within_limit _ allow e ↦
            let same = passing c w₁ (ap (λ (x : Context). x.aborted) e) in
            within_limit (limiting c w₁).1 allow
              (ap (λ (o : Context × W). passed_grey o.0) same
                ∙ ap (λ (x : Context). passed_grey (set_status 204 x)) e)
              (ap (λ (o : Context × W). o.1) same)
        | Passage.over_limit {w₁ = w₂} _ deny stop code out ↦
            let (no_pass, world) = stopping c w₁ 429 stop code refl in
            over_limit w₂ deny no_pass (world ∙ out)
        | Passage.unavailable {e = x} _ lost stop code ↦
            let (no_pass, world) = stopping c w₁ 500 stop code refl in
            unavailable x (limiting c w₁).1 lost no_pass world
      ]

  white-Visit :
      (req : Request) (w : W)
      → Visit req w (
          engine.serve
            (limiting ∷ no_content ∷ [])
            (admitted engine g req ip_white_list true)
            (after_rule req w))
  white-Visit req w =
      let c = admitted engine g req ip_white_list true in
      let w₁ = after_rule req w in
      elim (rate_limit-Passage g.limiter g.adder c w₁) [
        | Passage.exempt _ e world ↦
            let same = passing c w₁ (ap (λ (x : Context). x.aborted) e) in
            unasked
              (ap (λ (o : Context × W). passed_grey o.0) same
                ∙ ap (λ (x : Context). passed_grey (set_status 204 x)) e)
              (ap (λ (o : Context × W). o.1) same ∙ world)
        | Passage.within_limit grey _ _ ↦ absurd (cc)
        | Passage.over_limit grey _ _ _ _ ↦ absurd (cc)
        | Passage.unavailable grey _ _ _ ↦ absurd (cc)
      ]

  pub visited-Visit : (req : Request) (w : W) → Visit req w (visited req w)
  visited-Visit req w =
      let hs : List (Handler W) = limiting ∷ no_content ∷ [] in
      let (admission, world) = (acl-Admission g.querier 0 (fresh_context req) w) in
      elim admission [
        | Admission.white is_white e ↦
            subst (Visit req w) (sym (acl_passes engine g 0 hs req w ip_white_list true e))
              (white-Visit req w)
        | Admission.grey is_grey low e ↦
            subst (Visit req w) (sym (acl_passes engine g 0 hs req w ip_grey_list false e))
              (grey-Visit req w)
        | Admission.refused stop code not_white not_grey ↦
            let same = acl_stops engine g 0 hs req w stop in
            let denied =
              elim code as (λ _. passed_grey (acl g.querier 0 (fresh_context req) w).0 ≡ false) [
                | inl forbidden ↦
                    not_passed (acl g.querier 0 (fresh_context req) w).0 403 forbidden refl
                | inr broken ↦ not_passed (acl g.querier 0 (fresh_context req) w).0 500 broken refl
              ] in
            unasked (ap (λ (o : Context × W). passed_grey o.0) same ∙ denied)
              (ap (λ (o : Context × W). o.1) same ∙ world)
      ]
