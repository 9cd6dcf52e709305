-- ===== src/Middleware/RateLimit.antt =====
-- internal/middleware/ratelimit.go: refusing requests over the limit, and banning their address.
pub mod Passing
use Prim.Native.String.{◌++◌}
use ktauth.Prelude.{String, Bool, true, false, Option, none, some, if◌then◌else◌}
use ktauth.Effects.{Result, ok, err, on, Op}
use ktauth.Admin.Rules.{TextOp}
use ktauth.Gin.{Context, plain, respond, abort, abort_with_status, Handler}
use ktauth.Logctx.{set_reason, set_reason_detail, ratelimit_unavailable, ratelimit_exceeded}

pub record RateLimiter (W : Type 0) : Type 0 where
  pub allow : String → Op W Bool
  pub abuse : String → Op W Bool

pub record IpRuleAdder (W : Type 0) : Type 0 where
  pub add_rule : String → Bool → Option String → TextOp W

module _ {W : Type 0} (limiter : RateLimiter W) (adder : IpRuleAdder W) where
  -- The blacklisting of an abusive address; its error is only logged.
  unfoldable pub ban : Context → W → W
  ban c w =
      (adder.add_rule c.request.client_ip false
        (some ("Abuse with too many 429. Host: " ++ c.request.host)) w).1

  -- What follows a refusal.
  unfoldable pub punish : Context → W → W
  unfolding ban
  punish c w =
      let (abused, w₁) = limiter.abuse c.request.client_ip w in
      on abused (λ e. w₁) (λ b. if b then ban c w₁ else w₁)

  -- A request that is not whitelisted.
  unfoldable pub limit_unlisted : Handler W
  unfolding punish set_reason set_reason_detail
  limit_unlisted c w =
      let (allowed, w₁) = limiter.allow c.request.client_ip w in
      on allowed
        (λ e. (abort_with_status 500 (set_reason_detail ratelimit_unavailable (some e) c), w₁))
        (λ b. if b then (c, w₁) else (
          abort (respond 429 (plain "Rate limit exceed!") (set_reason ratelimit_exceeded c)),
          punish c w₁,
        ))

  -- RateLimit
  unfoldable pub rate_limit : Handler W
  unfolding limit_unlisted
  rate_limit c w = if c.whitelist then (c, w) else limit_unlisted c w
