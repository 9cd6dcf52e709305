-- ===== src/Admin/Rules/TakesEffect.antt =====
-- internal/service/admin/manage_iprule.go and internal/service/access/ip.go over the repositories that
-- main.go gives them: a new rule and the queries behind it.
use Prim.Native.String.{◌++◌}
use package.text.Mathlib.TextLemmas.{append_assoc, append_inj}
use ktauth.Prelude.{
  String, Bool, Option, none, some, ◌≢◌, ◌≡◌, ◌↔◌, inl, inr, refl, ap, arith, eq_iff, ◌∙◌, sym,
}
use ktauth.Effects.{ok, Result-cases}
use ktauth.Redis.{Redis, Env}
use ktauth.Redis.Laws.{View, text, Untouched, StringLaws}
use ktauth.Net.Print.{net_string}
use ktauth.IpUtils.{Processed, process_ip}
use ktauth.Model.{IpRuleType}
use ktauth.Repository.IpCache
use ktauth.Repository.IpCache.{rule_key}
use ktauth.Repository.IpCache.Held.{get-held}
use ktauth.Repository.RateLimit
use ktauth.Access.IpService.{IpRuleReader, IpRuleCache, query_rule}
use ktauth.Access.IpService.Verdict.{said, looked_up, query_rule_iff}
use ktauth.Admin.Rules.{IpRuleStore, Invalidator, invalidate, add_rule}

-- NewIPAccessService and NewAdminIPRuleService are given the IPCache and the RateLimitRepo.
abbrev pub rule_cache : {W : Type 0} → Redis W → IpRuleCache W
rule_cache r = record { cache = IpCache.cache r; get = IpCache.get r }

abbrev pub cached_rules : {W : Type 0} → Redis W → Invalidator W
cached_rules r = record { delete = IpCache.delete r }

abbrev pub recorded_requests : {W : Type 0} → Redis W → Invalidator W
recorded_requests r = record { delete = RateLimit.delete r }

keys_differ : (ip : String) → ("ratelimit:ip:" ++ ip) ≢ rule_key ip
keys_differ ip e =
    let parts =
      append_inj {s₁ = "ra"} {s₂ = "ru"}
        (sym (append_assoc "ra" "telimit:ip:" ip) ∙ e ∙ append_assoc "ru" "le:ip:" ip) refl in
    ground (arith, eq_iff "ra" "ru", parts.0)

module _ {W : Type 0} (r : Redis W) (env : Env W) (v : View W) (store : IpRuleStore W) where
  -- The CIDR that AddRule reports without an error is the one that it invalidates, in the world that the
  -- insertion leaves.
  added :
      (ip cidr : String) (white : Bool) (note : Option String) (w : W)
      → (add_rule store (cached_rules r) (recorded_requests r) ip white note w).0 ≡ (cidr, none)
      → (w₁ : W) × ((add_rule store (cached_rules r) (recorded_requests r) ip white note w).1
          ≡ invalidate store (cached_rules r) (recorded_requests r) cidr w₁)
  unfolding add_rule
  added ip cidr white note w done = elim (Result-cases (process_ip ip)) [
    | inr (x, bad) ↦ absurd (cc (rw bad at done))
    | inl (p, valid) ↦
        let w₁ = (store.add_ip p.version p.ip_net white note w).1 in
        elim (Result-cases (store.add_ip p.version p.ip_net white note w).0) [
          | inr (x, failed) ↦ absurd (cc (rw (valid, failed) at done))
          | inl (tt, inserted) ↦
              let cidr-eq : net_string p.ip_net ≡ cidr = cc (rw (valid, inserted) at done) in
              (
                w₁,
                rw (valid, inserted)
                    (ap (λ k. invalidate store (cached_rules r) (recorded_requests r) k w₁)
                      cidr-eq),
              )
        ]
  ]

module _ {W : Type 0} {r : Redis W} {env : Env W} {v : View W} (l : StringLaws r env v)
    (store : IpRuleStore W) (reader : IpRuleReader W)
    (dels : (k : String) (w : W) → (r.del k w).0 ≡ ok tt) where
  open v use {live, clock}

  invalidated :
      (cidr : String) (w w₂ : W)
      → Untouched r env v
          (rule_key cidr)
          (invalidate store (cached_rules r) (recorded_requests r) cidr w)
          w₂
      → live w₂ (clock w₂) (rule_key cidr) ≡ none
  unfolding invalidate IpCache.delete RateLimit.delete
  invalidated cidr w w₂ kept =
      let w₁ = (r.del (rule_key cidr) w).1 in
      let first = l.delete-clock (rule_key cidr) w in
      let second = l.delete-clock ("ratelimit:ip:" ++ cidr) w₁ in
      kept.same (clock w₂) (omega arith)
      ∙ l.delete-other ("ratelimit:ip:" ++ cidr) (rule_key cidr) w₁ (clock w₂) (keys_differ cidr)
          (omega (arith, kept.later))
      ∙ l.delete-live (rule_key cidr) w (clock w₂) (dels (rule_key cidr) w)
          (omega (arith, kept.later))

  -- Where no DEL fails: once AddRule has reported a CIDR, QueryRule answers, for an address under
  -- whose network (a /32, or a /64 of IPv6) it caches rules and whose network is that very CIDR,
  -- exactly what the table says of the address, and no rule that was cached before, until
  -- something writes the cached rule's key again; given the documented behaviour of the Redis
  -- commands. (Rules that are cached for networks inside a wider CIDR stay.)
  pub add_rule_takes_effect :
      (ip ip₂ cidr : String) (white : Bool) (note : Option String) (w w₂ : W) (p : Processed)
      (rule : IpRuleType)
      → (add_rule store (cached_rules r) (recorded_requests r) ip white note w).0 ≡ (cidr, none)
      → process_ip ip₂ ≡ ok p
      → net_string p.ip_net ≡ cidr
      → Untouched r env v
          (rule_key cidr)
          (add_rule store (cached_rules r) (recorded_requests r) ip white note w).1
          w₂
      → ((query_rule reader (rule_cache r) ip₂ w₂).0 ≡ ok rule)
        ↔ (said (looked_up reader (rule_cache r) p w₂).0 ≡ some rule)
  add_rule_takes_effect ip ip₂ cidr white note w w₂ p rule done valid same kept =
      let (w₁, world) = added r env v store ip cidr white note w done in
      let gone = invalidated cidr w₁ w₂ (rw world at kept) in
      query_rule_iff reader (rule_cache r) ip₂ w₂ p rule valid (λ rule' hit.
        let present = get-held l (net_string p.ip_net) rule' w₂ hit in
        absurd (cc (rw same at present)))
