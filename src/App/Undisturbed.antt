-- ===== src/App/Undisturbed.antt =====
-- cmd/ktauth/main.go: the steps of GET /kt/0 beside the limiter, the lookup of the rule and the test of
-- abuse, and the recorded requests of a network.
use native.Mathlib.Nat.{le_refl}
use ktauth.Prelude.{
  ℕ, ℤ, String, Bool, true, false, ◌==◌, [], ◌∷◌, Bool-cases, ◌≡◌, ◌≢◌, ◌∙◌, refl, sym, ap, subst,
  inl, inr, arith, eq_int,
}
use ktauth.Effects.{Result, ok, Result-cases}
use ktauth.Redis.Laws.{View, Untouched, EvalLaws}
use ktauth.Postgres.{Statement}
use ktauth.Net.Print.{net_string}
use ktauth.IpUtils.{process_ip}
use ktauth.Repository.IpCache
use ktauth.Repository.IpCache.{rule_key}
use ktauth.Repository.IpRepo
use ktauth.Repository.RateLimit
use ktauth.Repository.RateLimit.{increase_with_expire, first_expire, seconds}
use ktauth.Repository.RateLimit.Strikes.{abuse_key}
use ktauth.Repository.RateLimit.Window.Bound.{rate_key}
use ktauth.Access.IpService.{IpRuleReader}
use ktauth.Access.IpService.Verdict.{Answer, query_rule-Answer}
use ktauth.Access.RateService
use ktauth.Admin.Rules.TakesEffect.{rule_cache}
use ktauth.Gin.{Context}
use ktauth.Middleware.RateLimit as Limiting
use ktauth.App.{Packages, Settings, guards}

module _ {W : Type 0} (p : Packages W) (s : Settings) (v : View W) (net : String) where
  open v use {live, clock}

  -- Time may pass, but the recorded requests of the network stay.
  abbrev pub Calm : W → W → Type 0
  Calm = Untouched p.redis p.env v (rate_key net)

  Calm-refl : (w : W) → Calm w w
  Calm-refl w = record { later = le_refl _; same = λ t h. refl }

  Calm-trans : {w w₁ w₂ : W} → Calm w w₁ → Calm w₁ w₂ → Calm w w₂
  Calm-trans a b = record {
    later = omega (arith, a.later, b.later);
    same = λ t h. b.same t h ∙ a.same t (omega (arith, b.later));
  }

  -- A command of Redis for another key, and a query of PostgreSQL, leave them alone.
  pub record IsAside : Type 0 where
    pub get-Calm : (ip : String) (w : W) → Calm w (p.redis.get (rule_key ip) w).1
    pub pipe_set-Calm :
        (ip rule : String) (ms : ℕ) (w : W)
        → Calm w (p.redis.pipe_set ((rule_key ip, rule, ms) ∷ []) w).1
    pub row_bool-Calm : (query : Statement) (w : W) → Calm w (p.postgres.row_bool query w).1
    pub incr-Calm : (ip : String) (w : W) → Calm w (p.redis.call_incr (abuse_key ip) w).1
    pub expire-Calm :
        (ip : String) (ttl : ℤ) (w : W) → Calm w (p.redis.call_expire (abuse_key ip) ttl w)
    pub del-Calm : (ip : String) (w : W) → Calm w (p.redis.call_del (abuse_key ip) w)

  module _ (aside : IsAside) where
    abbrev reader : IpRuleReader W
    reader = record { query_ip = IpRepo.query_ip p.postgres }

    cached-Calm : (ip : String) (w : W) → Calm w (IpCache.get p.redis ip w).1
    unfolding IpCache.get
    cached-Calm ip w = aside.get-Calm ip w

    query_ip-Calm :
        (version : ℕ) (ip : _) (w : W) → Calm w (IpRepo.query_ip p.postgres version ip w).1
    unfolding IpRepo.query_ip
    query_ip-Calm version ip w = aside.row_bool-Calm _ w

    cache-Calm : (rule ip : String) (w : W) → Calm w (IpCache.cache p.redis rule (ip ∷ []) w).1
    unfolding IpCache.cache
    cache-Calm rule ip w = aside.pipe_set-Calm ip rule _ w

    abbrev rule_asked : String → W → Result String × W
    rule_asked ip w = (guards p s).querier.query_rule ip w

    -- QueryRule, whatever it answers
    pub query_rule-Calm : (ip : String) (w : W) → Calm w (rule_asked ip w).1
    query_rule-Calm ip w =
        let world =
          λ (w₁ : W) (out : (rule_asked ip w).1 ≡ w₁) (c : Calm w w₁). subst (Calm w) (sym out) c in
        elim (query_rule-Answer reader (rule_cache p.redis) ip w) [
          | Answer.invalid e x bad out ↦
              world w (ap (λ (o : Result String × W). o.1) out) (Calm-refl w)
          | Answer.from_cache q rule valid hit out ↦
              world _ (ap (λ (o : Result String × W). o.1) out)
                (cached-Calm (net_string q.ip_net) w)
          | Answer.from_table q x rule valid miss says out ↦
              world _ (ap (λ (o : Result String × W). o.1) out) (
                Calm-trans (cached-Calm (net_string q.ip_net) w) (
                  Calm-trans (query_ip-Calm q.version q.ip _)
                    (cache-Calm rule (net_string q.ip_net) _)))
          | Answer.failed q x y valid miss says out ↦
              world _ (ap (λ (o : Result String × W). o.1) out)
                (Calm-trans (cached-Calm (net_string q.ip_net) w) (query_ip-Calm q.version q.ip _))
        ]

    first_expire-Calm :
        (ip : String) (ttl : ℤ) (cnt : ℕ) (w : W)
        → Calm w (first_expire p.redis (abuse_key ip) ttl cnt w)
    unfolding first_expire
    first_expire-Calm ip ttl cnt w = elim (Bool-cases (cnt == 1)) [
      | inl first ↦ rw first (aside.expire-Calm ip ttl w)
      | inr later ↦ rw later (Calm-refl w)
    ]

    -- The script of Abuse, whatever it counts
    script-Calm :
        (ip : String) (ttl limit : ℤ) (w : W)
        → Calm w (increase_with_expire p.redis (abuse_key ip) ttl limit w).1
    unfolding increase_with_expire
    script-Calm ip ttl limit w =
        let cnt = (p.redis.call_incr (abuse_key ip) w).0 in
        let w₁ = (p.redis.call_incr (abuse_key ip) w).1 in
        let timed = Calm-trans (aside.incr-Calm ip w) (first_expire-Calm ip ttl cnt w₁) in
        elim (Bool-cases (eq_int cnt limit)) [
          | inl full ↦ rw full (Calm-trans timed (aside.del-Calm ip _))
          | inr more ↦ rw more timed
        ]

    module _ (evals : EvalLaws p.redis p.env v) where
      abuse-Calm :
          (ip : String) (limit window : ℤ) (w : W)
          → Calm w (RateLimit.abuse p.redis ip limit window w).1
      unfolding RateLimit.abuse
      abuse-Calm ip limit window w =
          let script = increase_with_expire p.redis (abuse_key ip) (seconds window) limit in
          let ran = script-Calm ip (seconds window) limit w in
          elim (evals.eval-cases script w) [
            | inl answer ↦ rw answer ran
            | inr (e, lost, inl unrun) ↦ rw unrun (Calm-refl w)
            | inr (e, lost, inr done) ↦ rw done ran
          ]

      abbrev abused : String → W → Result Bool × W
      abused ip w = (guards p s).limiter.abuse ip w

      service_abuse-Calm : (ip : String) (w : W) → Calm w (abused ip w).1
      unfolding RateService.abuse
      service_abuse-Calm ip w = elim (Result-cases (process_ip ip)) [
        | inr (e, bad) ↦ rw bad (Calm-refl w)
        | inl (q, valid) ↦
            rw valid (abuse-Calm (net_string q.ip_net) s.abuse_limit s.abuse_window w)
      ]

      -- What follows a refusal, where the test of abuse does not ask for a ban
      pub punish-Calm :
          (c : Context) (w : W)
          → (abused c.request.client_ip w).0 ≢ ok true
          → Calm w (Limiting.punish (guards p s).limiter (guards p s).adder c w)
      unfolding Limiting.punish
      punish-Calm c w no_ban =
          let tested = service_abuse-Calm c.request.client_ip w in
          elim (Result-cases (abused c.request.client_ip w).0) [
            | inr (e, failed) ↦ rw failed tested
            | inl (true, ban) ↦ absurd (no_ban ban)
            | inl (false, spared) ↦ rw spared tested
          ]
