-- ===== src/App/StaleRules.antt =====
-- internal/service/access/ip.go over internal/repository/iprule_cache.go, as main.go puts them
-- together: how long a cached verdict stands beside the table.
use ktauth.Prelude.{
  ℕ, ◌+◌, ◌<◌, ◌≤◌, String, Bool, true, false, none, some, [], ◌∷◌, ltb, Bool-cases, ◌≡◌, ◌↔◌, ◌∙◌,
  inl, inr, refl, ap, subst, arith,
}
use ktauth.Errors.{Error, is_ip_not_found}
use ktauth.Effects.{Result, ok, err}
use ktauth.Redis.{Redis, Env}
use ktauth.Redis.Laws.{View, Untouched, StringLaws}
use ktauth.Net.Print.{net_string}
use ktauth.IpUtils.{Processed, process_ip}
use ktauth.Model.{IpRuleType}
use ktauth.Repository.IpCache
use ktauth.Repository.IpCache.{ttl, rule_key}
use ktauth.Repository.IpCache.Held.{get-held, held-get, cache-held, Answers}
use ktauth.Access.IpService.{IpRuleReader, query_rule}
use ktauth.Access.IpService.Verdict.{
  Answer, said, cached, looked_up, query_rule-Answer, query_rule_iff,
}
use ktauth.Admin.Rules.TakesEffect.{rule_cache}

-- The three verdicts of the table have a time to live.
listed-ttl : (white : Bool) (rule : IpRuleType) → said (ok white) ≡ some rule → 0 < ttl rule
unfolding ttl
listed-ttl true rule says = let same : rule ≡ "whitelist" = cc in rw same (omega arith)
listed-ttl false rule says = let same : rule ≡ "blacklist" = cc in rw same (omega arith)

pub said-ttl : (row : Result Bool) (rule : IpRuleType) → said row ≡ some rule → 0 < ttl rule
unfolding ttl
said-ttl (ok white) rule says = listed-ttl white rule says
said-ttl (err e) rule says = elim (Bool-cases (is_ip_not_found e)) [
  | inl absent ↦ let same : rule ≡ "greylist" = cc (rw absent at says) in rw same (omega arith)
  | inr broken ↦ absurd (cc (rw broken at says))
]

module _ {W : Type 0} {r : Redis W} {env : Env W} {v : View W} (l : StringLaws r env v)
    (reader : IpRuleReader W) where
  open v use {live, clock}

  -- A miss of the cache behind which the table said a rule, and that rule was cached.
  pub record Learned (p : Processed) (rule : IpRuleType) (w : W) : Type 0 where
    pub missed : (x : Error) × ((cached reader (rule_cache r) p w).0 ≡ err x)
    pub says : said (looked_up reader (rule_cache r) p w).0 ≡ some rule
    pub stored :
        (IpCache.cache r rule (net_string p.ip_net ∷ []) (looked_up reader (rule_cache r) p w).1).0
        ≡ ok tt

  -- The time when the rule was cached.
  abbrev pub learned_at : Processed → W → ℕ
  learned_at p w = clock (looked_up reader (rule_cache r) p w).1

  world_behind_miss :
      (ip : String) (w : W) (p : Processed) (rule : IpRuleType)
      → process_ip ip ≡ ok p
      → Learned p rule w
      → (query_rule reader (rule_cache r) ip w).1
        ≡ (IpCache.cache r rule
            (net_string p.ip_net ∷ [])
            (looked_up reader (rule_cache r) p w).1).1
  world_behind_miss ip w p rule valid how =
      let (x, missed) = how.missed in
      elim (query_rule-Answer reader (rule_cache r) ip w) [
        | Answer.invalid e y bad out ↦ absurd (cc)
        | Answer.from_cache p' rule' valid' hit out ↦
            let same : p' ≡ p = cc in
            let hit' = subst (λ q. (cached reader (rule_cache r) q w).0 ≡ ok rule') same hit in
            absurd (cc)
        | Answer.from_table p' y rule' valid' miss says out ↦
            let same : p' ≡ p = cc in
            let says' =
              subst (λ q. said (looked_up reader (rule_cache r) q w).0 ≡ some rule') same says in
            let one : rule' ≡ rule = cc (says', how.says) in
            ap (λ (o : Result IpRuleType × W). o.1) out
            ∙ ap
                (λ (q : Processed × IpRuleType).
                  (IpCache.cache r q.1 (net_string q.0.ip_net ∷ [])
                    (looked_up reader (rule_cache r) q.0 w).1).1)
                (λ i. (same i, one i))
        | Answer.failed p' y z valid' miss says out ↦
            let same : p' ≡ p = cc in
            let says' =
              subst (λ q. said (looked_up reader (rule_cache r) q w).0 ≡ none) same says in
            absurd (cc (says', how.says))
      ]

  hit-verdict :
      (ip : String) (w : W) (p : Processed) (rule : IpRuleType)
      → process_ip ip ≡ ok p
      → (IpCache.get r (net_string p.ip_net) w).0 ≡ ok rule
      → (query_rule reader (rule_cache r) ip w).0 ≡ ok rule
  unfolding query_rule
  hit-verdict ip w p rule valid hit = rw (valid, hit) refl

  -- Once QueryRule has taken a rule of an address from the table and cached it, it answers that
  -- rule of every address of the same network, such as the other addresses of an IPv6 /64,
  -- whatever the table says of them, until the rule's time to live is over; from then on it
  -- answers what the table says of the address. This is while GET fails for no other reason than
  -- a missing key, and nothing else writes the cached rule's key; given the documented behaviour
  -- of the Redis commands.
  pub verdict_stands :
      (ip ip₂ : String) (w w₂ : W) (p p₂ : Processed) (rule : IpRuleType)
      → process_ip ip ≡ ok p
      → process_ip ip₂ ≡ ok p₂
      → net_string p₂.ip_net ≡ net_string p.ip_net
      → Learned p rule w
      → Untouched r env v
          (rule_key (net_string p.ip_net))
          (query_rule reader (rule_cache r) ip w).1
          w₂
      → Answers l (net_string p.ip_net) w₂
      → (clock w₂ < learned_at p w + ttl rule
          → (query_rule reader (rule_cache r) ip₂ w₂).0 ≡ ok rule)
        × (learned_at p w + ttl rule ≤ clock w₂
            → (rule₂ : IpRuleType)
            → ((query_rule reader (rule_cache r) ip₂ w₂).0 ≡ ok rule₂)
              ↔ (said (looked_up reader (rule_cache r) p₂ w₂).0 ≡ some rule₂))
  verdict_stands ip ip₂ w w₂ p p₂ rule valid valid₂ same how kept answers =
      let net = net_string p.ip_net in
      let w₁ = (looked_up reader (rule_cache r) p w).1 in
      let held = cache-held l net rule w₁ w₂ how.stored (said-ttl _ rule how.says) (
        subst (λ x. Untouched r env v (rule_key net) x w₂) (world_behind_miss ip w p rule valid how)
          kept) in
      (
        λ young.
            let soon : ltb (clock w₂) (clock w₁ + ttl rule) ≡ true = ground arith in
            let hit = held-get l net rule w₂ answers (rw soon at held) in
            hit-verdict ip₂ w₂ p₂ rule valid₂ (rw same hit),
        λ old rule₂.
            let late : ltb (clock w₂) (clock w₁ + ttl rule) ≡ false = ground arith in
            let gone : live w₂ (clock w₂) (rule_key net) ≡ none = rw late at held in
            query_rule_iff reader (rule_cache r) ip₂ w₂ p₂ rule₂ valid₂ (λ rule' hit.
              let here = get-held l (net_string p₂.ip_net) rule' w₂ hit in
              absurd (cc (rw same at here))),
      )
