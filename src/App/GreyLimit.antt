-- ===== src/App/GreyLimit.antt =====
-- cmd/ktauth/main.go, GET /kt/0 with the middlewares, services and repositories that main puts
-- together: how often the addresses of one network pass while they are greylisted.
use ktauth.Prelude.{
  ℕ, ◌≤◌, pos_part, String, Bool, true, false, List, [], ◌∷◌, none, ◌≡◌, ◌≢◌, ◌∙◌, refl, sym, ap,
  subst, not, if◌then◌else◌,
}
use ktauth.Errors.{Error, wrapf}
use ktauth.Effects.{Result, ok, err, on}
use ktauth.Redis.Laws.{View}
use ktauth.Net.Print.{net_string}
use ktauth.IpUtils.{Processed, process_ip}
use ktauth.Repository.RateLimit
use ktauth.Repository.RateLimit.Window.Bound.{rate_key, is_granted, IsFresh, Run, window_bound}
use ktauth.Repository.RateLimit.Window.Counts.{within}
use ktauth.Repository.RateLimit.Window.Script.{Laws}
use ktauth.Access.RateService.{rate_window}
use ktauth.Access.RateService.PerNetwork.{allowed_for, allow-network}
use ktauth.Gin.{Context, Request}
use ktauth.Gin.Engine.{Engine}
use ktauth.Routes.Visit.{
  visited, after_rule, limited, grey_context, punished, passed_grey, visited-Visit, unasked,
  within_limit, over_limit, unavailable,
}
use ktauth.App.Undisturbed.{Calm, IsAside, query_rule-Calm, punish-Calm}
use ktauth.App.{Packages, Settings, rate_limit_service, guards}

-- The service's error around the repository's.
abbrev wrapped : Result Bool → Result Bool
wrapped res = on res (λ e. err (wrapf "rate limit check failed: " e)) (λ b. ok b)

granted-wrapped : (res : Result Bool) (b : Bool) → wrapped res ≡ ok b → is_granted res ≡ b
granted-wrapped (ok b') b e = cc
granted-wrapped (err x) b e = absurd (cc)

granted-lost : (res : Result Bool) (e : Error) → wrapped res ≡ err e → is_granted res ≡ false
granted-lost (ok b) e h = absurd (cc)
granted-lost (err x) e h = refl

wrapped-granted : (res : Result Bool) → is_granted (wrapped res) ≡ is_granted res
wrapped-granted (ok b) = refl
wrapped-granted (err x) = refl

module _ {W : Type 0} (p : Packages W) (s : Settings) (engine : Engine W) where
  -- GET /kt/0
  abbrev pub answer : Request → W → Context × W
  answer = visited engine (guards p s)

  abbrev pub looked_up_world : Request → W → W
  looked_up_world = after_rule engine (guards p s)

  module _ (v : View W) (net : String) where
    open v use {live, clock}

    -- Requests to /kt/0 of addresses of the network, and the limiter's part of those to other routes,
    -- with the times at which greylisted ones and those to other routes passed it, as long as the test
    -- of abuse that follows a refusal does not ask for a ban, since AddRule deletes the recorded
    -- requests. Between the requests anything may happen that leaves these alone.
    pub data Visits : W → List ℕ → Type 0 where
      start : {w : W} → ((t : ℕ) → clock w ≤ t → live w t (rate_key net) ≡ none) → Visits w []
      visit :
          {w : W} {times : List ℕ} (req : Request) (q : Processed)
          → Visits w times
          → process_ip req.client_ip ≡ ok q
          → net_string q.ip_net ≡ net
          → IsFresh p.redis p.env v net rate_window s.rate_limit (looked_up_world req w)
          → ((w₂ : W)
              → limited engine (guards p s) req w ≡ (ok false, w₂)
              → ((guards p s).limiter.abuse req.client_ip w₂).0 ≢ ok true)
          → Visits (answer req w).1 (
              if passed_grey (answer req w).0
              then p.env.now_ms (looked_up_world req w) ∷ times
              else times)
      other_step :
          {w w' : W} {times : List ℕ} → Visits w times → Calm p s v net w w' → Visits w' times
      other_route :
          {w : W} {times : List ℕ} (ip : String) (q : Processed)
          → Visits w times
          → process_ip ip ≡ ok q
          → net_string q.ip_net ≡ net
          → IsFresh p.redis p.env v net rate_window s.rate_limit w
          → Visits ((guards p s).limiter.allow ip w).1 (
              if is_granted ((guards p s).limiter.allow ip w).0
              then p.env.now_ms w ∷ times
              else times)

    module _ (enabled : s.rate_limit_enabled ≡ true) (l : Laws p.redis p.env v)
        (aside : IsAside p s v net) where
      abbrev Counted : W → List ℕ → Type 0
      Counted = Run p.redis p.env v net rate_window s.rate_limit

      other_step-Counted :
          {w w' : W} {times : List ℕ} → Counted w times → Calm p s v net w w' → Counted w' times
      other_step-Counted run calm = Run.other_step run calm.later calm.same

      -- The repository's answer behind the limiter's.
      limiter-allow :
          (ip : String) (q : Processed) (w : W)
          → process_ip ip ≡ ok q
          → net_string q.ip_net ≡ net
          → let out = RateLimit.allow p.redis p.env net s.rate_limit rate_window w in
            (guards p s).limiter.allow ip w ≡ (wrapped out.0, out.1)
      limiter-allow ip q w valid same =
          allow-network (rate_limit_service p s) ip q w valid
          ∙ ap (λ k. allowed_for (rate_limit_service p s) k w) same
          ∙ ap
              (λ b.
                if not b
                then (ok true, w)
                else (let (allowed, w₁) =
                      RateLimit.allow p.redis p.env net s.rate_limit rate_window w in
                    (wrapped allowed, w₁)))
              enabled

      other_route-Counted :
          (ip : String) (q : Processed) (w : W) (times : List ℕ)
          → Counted w times
          → process_ip ip ≡ ok q
          → net_string q.ip_net ≡ net
          → IsFresh p.redis p.env v net rate_window s.rate_limit w
          → Counted ((guards p s).limiter.allow ip w).1 (
              if is_granted ((guards p s).limiter.allow ip w).0
              then p.env.now_ms w ∷ times
              else times)
      other_route-Counted ip q w times run valid same fresh =
          let out = RateLimit.allow p.redis p.env net s.rate_limit rate_window w in
          subst
            (λ (o : Result Bool × W).
              Counted o.1 (if is_granted o.0 then p.env.now_ms w ∷ times else times))
            (sym (limiter-allow ip q w valid same))
            (subst (λ b. Counted out.1 (if b then p.env.now_ms w ∷ times else times))
              (sym (wrapped-granted out.0)) (Run.call out.0 run fresh refl))

      -- A call of the limiter with a known outcome is a call of the run.
      call-Counted :
          (req : Request) (q : Processed) (w w₂ : W) (times : List ℕ) (res : Result Bool) (b : Bool)
          → Counted (looked_up_world req w) times
          → process_ip req.client_ip ≡ ok q
          → net_string q.ip_net ≡ net
          → IsFresh p.redis p.env v net rate_window s.rate_limit (looked_up_world req w)
          → limited engine (guards p s) req w ≡ (res, w₂)
          → ((r : Result Bool) → wrapped r ≡ res → is_granted r ≡ b)
          → Counted w₂ (if b then p.env.now_ms (looked_up_world req w) ∷ times else times)
      call-Counted req q w w₂ times res b run valid same fresh e granted =
          let w₁ = looked_up_world req w in
          let out = RateLimit.allow p.redis p.env net s.rate_limit rate_window w₁ in
          let both = sym (limiter-allow req.client_ip q (looked_up_world req w) valid same) ∙ e in
          let next = Run.call out.0 run fresh refl in
          let verdict = granted out.0 (ap (λ (o : Result Bool × W). o.0) both) in
          subst (λ x. Counted x (if b then p.env.now_ms w₁ ∷ times else times))
            (ap (λ (o : Result Bool × W). o.1) both)
            (subst (λ x. Counted out.1 (if x then p.env.now_ms w₁ ∷ times else times)) verdict next)

      visit-Counted :
          (req : Request) (q : Processed) (w : W) (times : List ℕ)
          → Counted w times
          → process_ip req.client_ip ≡ ok q
          → net_string q.ip_net ≡ net
          → Calm p s v net w (looked_up_world req w)
          → IsFresh p.redis p.env v net rate_window s.rate_limit (looked_up_world req w)
          → ((w₂ : W)
              → limited engine (guards p s) req w ≡ (ok false, w₂)
              → Calm p s v net w₂ (punished engine (guards p s) req w₂))
          → Counted (answer req w).1 (
              if passed_grey (answer req w).0
              then p.env.now_ms (looked_up_world req w) ∷ times
              else times)
      visit-Counted req q w times run valid same calm fresh spared =
          let run₁ = other_step-Counted run calm in
          let call = λ (w₂ : W) (res : Result Bool) (b : Bool).
            call-Counted req q w w₂ times res b run₁ valid same fresh in
          elim (visited-Visit engine (guards p s) req w) [
            | unasked no_pass world ↦ rw (no_pass, world) run₁
            | within_limit w₂ allow pass world ↦
                rw (pass, world) (call w₂ (ok true) true allow (λ r e. granted-wrapped r true e))
            | over_limit w₂ deny no_pass world ↦
                rw (no_pass, world)
                  (other_step-Counted
                    (call w₂ (ok false) false deny (λ r e. granted-wrapped r false e))
                    (spared w₂ deny))
            | unavailable x w₂ lost no_pass world ↦
                rw (no_pass, world) (call w₂ (err x) false lost (λ r e. granted-lost r x e))
          ]

      Visits-Counted : {w : W} {times : List ℕ} → Visits w times → Counted w times
      Visits-Counted (start missing) = Run.start missing
      Visits-Counted (visit {w = w} {times = times} req q before valid same fresh no_ban) =
          visit-Counted req q w times (Visits-Counted before) valid same
            (query_rule-Calm p s v net aside req.client_ip w) fresh
            (λ w₂ denied.
              punish-Calm p s v net aside l.evals (grey_context engine (guards p s) req) w₂
                (no_ban w₂ denied))
      Visits-Counted (other_route {w = w} {times = times} ip q before valid same fresh) =
          other_route-Counted ip q w times (Visits-Counted before) valid same fresh
      Visits-Counted (other_step before calm) = other_step-Counted (Visits-Counted before) calm

      -- Where the rate limit is enabled: in any window of one minute, the requests to /kt/0 from
      -- greylisted addresses of one network that are answered by 204, together with those of the
      -- network's addresses that the limiter lets pass on other routes, are at most RATELIMIT
      -- (none, if that is negative), whatever fails. This is for histories without a request for
      -- a ban and without AddRule and DelRule for that network, which delete its recorded
      -- requests: all other steps leave these alone. It is given the documented behaviour of the
      -- Redis commands, also that those for other keys leave the recorded requests of the network
      -- alone, as queries of PostgreSQL do, and identifiers that are not in the set yet.
      pub grey_bound :
          {w : W} {times : List ℕ} (t : ℕ)
          → Visits w times
          → within rate_window t times ≤ pos_part s.rate_limit
      grey_bound t visits = window_bound l net rate_window s.rate_limit t (Visits-Counted visits)
