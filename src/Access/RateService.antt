-- ===== src/Access/RateService.antt =====
-- internal/service/access/ratelimit.go
pub mod PerNetwork
use ktauth.Prelude.{ℕ, ℤ, String, Bool, true, not, if◌then◌else◌}
use ktauth.Errors.{wrapf}
use ktauth.Effects.{ok, err, on, Op}
use ktauth.Net.Print.{net_string}
use ktauth.IpUtils.{process_ip}

pub record RateReader (W : Type 0) : Type 0 where
  pub allow : String → ℤ → ℕ → Op W Bool
  pub abuse : String → ℤ → ℤ → Op W Bool

pub record RateLimitService (W : Type 0) : Type 0 where
  pub rate_reader : RateReader W
  pub limit_per_minute : ℤ
  pub enabled : Bool
  pub abuse_limit : ℤ
  -- in nanoseconds
  pub abuse_window : ℤ

-- One minute, in milliseconds.
abbrev pub rate_window : ℕ
rate_window = 60000

module _ {W : Type 0} (s : RateLimitService W) where
  -- Allow
  unfoldable pub allow : String → Op W Bool
  allow ip w =
      if not s.enabled
      then (ok true, w)
      else on (process_ip ip) (λ e. (err e, w))
          (λ p.
            let (allowed, w₁) =
              s.rate_reader.allow (net_string p.ip_net) s.limit_per_minute rate_window w in
            (on allowed (λ e. err (wrapf "rate limit check failed: " e)) (λ b. ok b), w₁))

  -- Abuse
  unfoldable pub abuse : String → Op W Bool
  abuse ip w =
      on (process_ip ip) (λ e. (err e, w))
        (λ p. s.rate_reader.abuse (net_string p.ip_net) s.abuse_limit s.abuse_window w)
