-- ===== src/Access/RateService/PerNetwork.antt =====
-- internal/service/access/ratelimit.go: what the limits of two addresses have to do with each other.
use ktauth.Prelude.{String, Bool, true, not, ◌≡◌, ◌∙◌, refl, sym, ap, if◌then◌else◌}
use ktauth.Errors.{wrapf}
use ktauth.Effects.{Result, ok, err, on}
use ktauth.Net.Print.{net_string}
use ktauth.IpUtils.{Processed, process_ip}
use ktauth.Access.RateService.{RateLimitService, rate_window, allow, abuse}

module _ {W : Type 0} (s : RateLimitService W) where
  -- The two answers for a network.
  abbrev pub allowed_for : String → W → Result Bool × W
  allowed_for key w =
      if not s.enabled
      then (ok true, w)
      else (let (allowed, w₁) = s.rate_reader.allow key s.limit_per_minute rate_window w in
          (on allowed (λ e. err (wrapf "rate limit check failed: " e)) (λ b. ok b), w₁))

  pub allow-network :
      (ip : String) (p : Processed) (w : W)
      → process_ip ip ≡ ok p
      → allow s ip w ≡ allowed_for (net_string p.ip_net) w
  unfolding allow
  allow-network ip p w valid = rw valid refl

  abuse-network :
      (ip : String) (p : Processed) (w : W)
      → process_ip ip ≡ ok p
      → abuse s ip w ≡ s.rate_reader.abuse (net_string p.ip_net) s.abuse_limit s.abuse_window w
  unfolding abuse
  abuse-network ip p w valid = rw valid refl

  -- Addresses of one network, such as the addresses of an IPv6 /64, share both limits: Allow and
  -- Abuse of the service answer the same for each of them, and leave the same world.
  limits_shared :
      (a b : String) (p q : Processed) (w : W)
      → process_ip a ≡ ok p
      → process_ip b ≡ ok q
      → net_string p.ip_net ≡ net_string q.ip_net
      → (allow s a w ≡ allow s b w) × (abuse s a w ≡ abuse s b w)
  limits_shared a b p q w valid_a valid_b same = (
    allow-network a p w valid_a
        ∙ ap (λ k. allowed_for k w) same
        ∙ sym (allow-network b q w valid_b),
    abuse-network a p w valid_a
        ∙ ap (λ k. s.rate_reader.abuse k s.abuse_limit s.abuse_window w) same
        ∙ sym (abuse-network b q w valid_b),
  )
