-- ===== src/Middleware/RateLimit/Passing.antt =====
-- internal/middleware/ratelimit.go: which requests pass, and what happens to the others.
use ktauth.Prelude.{Bool, true, false, Bool-cases, ◌≡◌, refl, inl, inr, ap, if◌then◌else◌}
use ktauth.Errors.{Error}
use ktauth.Effects.{Result, ok, err}
use ktauth.Gin.{Context}
use ktauth.Middleware.RateLimit.{RateLimiter, IpRuleAdder, punish, limit_unlisted, rate_limit}

module _ {W : Type 0} (limiter : RateLimiter W) (adder : IpRuleAdder W) where
  -- The outcomes of RateLimit, from (c, w) to (c', w').
  pub data Passage (c : Context) (w : W) (c' : Context) (w' : W) : Type 0 where
    exempt : c.whitelist ≡ true → c' ≡ c → w' ≡ w → Passage c w c' w'
    within_limit :
        c.whitelist ≡ false
        → limiter.allow c.request.client_ip w ≡ (ok true, w')
        → c' ≡ c
        → Passage c w c' w'
    over_limit :
        {w₁ : W}
        → c.whitelist ≡ false
        → limiter.allow c.request.client_ip w ≡ (ok false, w₁)
        → c'.aborted ≡ true
        → c'.status ≡ 429
        → w' ≡ punish limiter adder c w₁
        → Passage c w c' w'
    unavailable :
        {e : Error}
        → c.whitelist ≡ false
        → limiter.allow c.request.client_ip w ≡ (err e, w')
        → c'.aborted ≡ true
        → c'.status ≡ 500
        → Passage c w c' w'

  rate_limit_white :
      (c : Context) (w : W) → c.whitelist ≡ true → rate_limit limiter adder c w ≡ (c, w)
  unfolding rate_limit
  rate_limit_white c w white =
      ap (λ b. if b then (c, w) else limit_unlisted limiter adder c w) white

  rate_limit_grey :
      (c : Context) (w : W)
      → c.whitelist ≡ false
      → rate_limit limiter adder c w ≡ limit_unlisted limiter adder c w
  unfolding rate_limit
  rate_limit_grey c w grey = ap (λ b. if b then (c, w) else limit_unlisted limiter adder c w) grey

  limited :
      (c : Context) (w : W) (res : Result Bool) (w₁ : W)
      → c.whitelist ≡ false
      → limiter.allow c.request.client_ip w ≡ (res, w₁)
      → Passage c w (limit_unlisted limiter adder c w).0 (limit_unlisted limiter adder c w).1
  unfolding limit_unlisted
  limited c w (ok true) w₁ grey e = rw e (within_limit grey e refl)
  limited c w (ok false) w₁ grey e = rw e (over_limit grey e refl refl refl)
  limited c w (err x) w₁ grey e = rw e (unavailable grey e refl refl)

  -- RateLimit passes a whitelisted request without counting it, passes one within the limit,
  -- answers one over the limit by 429 whatever becomes of the abuse test that follows, and 500
  -- where the limiter fails.
  pub rate_limit-Passage :
      (c : Context) (w : W)
      → Passage c w (rate_limit limiter adder c w).0 (rate_limit limiter adder c w).1
  rate_limit-Passage c w = elim (Bool-cases c.whitelist) [
    | inl white ↦ rw (rate_limit_white c w white) (exempt white refl refl)
    | inr grey ↦ rw (rate_limit_grey c w grey) (limited c w _ _ grey refl)
  ]
