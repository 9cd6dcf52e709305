-- ===== src/App/VerdictAge.antt =====
-- internal/service/access/ip.go over internal/repository/iprule_cache.go, as main.go puts them
-- together: how old a verdict can be where queries and changes of the rules overlap.
pub mod Changes
pub mod Answers
pub mod Aging
use ktauth.Prelude.{
  Bool, true, false, ℕ, ◌+◌, ◌<◌, ◌≤◌, String, none, some, List, [], ◌∷◌, ltb, Bool-cases, ◌≡◌, ◌⊎◌,
  ◌∙◌, inl, inr, sym, ap, subst, arith, refl, ◌++◌, if◌then◌else◌,
}
use ktauth.Effects.{Result, ok, err, Result-cases}
use ktauth.Errors.{is_ip_not_found}
use ktauth.Redis.{Redis, Env}
use ktauth.Redis.Laws.{text, View, StringLaws}
use ktauth.Net.Print.{net_string}
use ktauth.IpUtils.{Processed, process_ip}
use ktauth.Model.{IpRuleType}
use ktauth.Repository.IpCache
use ktauth.Repository.IpCache.{ttl, rule_key}
use ktauth.Repository.IpCache.Held.{get-held}
use ktauth.Access.IpService.{IpRuleReader, listed, remember, query_rule}
use ktauth.Access.IpService.Verdict.{Answer, said, cached, looked_up, query_rule-Answer}
use ktauth.Admin.Rules.TakesEffect.{rule_cache}
use ktauth.App.StaleRules.{said-ttl}

-- A lookup of the table that said a rule, in a world; and a rule that was cached at a time, after the
-- lookup in a world.
pub data Event (W : Type 0) : Type 0 where
  looked : IpRuleType → W → Event W
  wrote : IpRuleType → W → ℕ → Event W

-- How long a cached rule may stand, in milliseconds: 30 minutes for a whitelisting, 60 for a
-- blacklisting, 5 for the greylist.
pub data Lifetime : IpRuleType → ℕ → Type 0 where
  whitelisted : Lifetime "whitelist" 1800000
  blacklisted : Lifetime "blacklist" 3600000
  greylisted : Lifetime "greylist" 300000

-- The rule was said in the world, by one of the events.
unfoldable pub Saw : {W : Type 0} → IpRuleType → W → List (Event W) → Type 0
Saw rule w [] = ⊥
Saw rule w (looked said_rule w' ∷ log) = ((said_rule ≡ rule) × (w' ≡ w)) ⊎ Saw rule w log
Saw rule w (wrote cached_rule w' at ∷ log) = Saw rule w log

-- The rule was cached at the time, after the lookup in the world, by one of the events.
unfoldable pub Wrote : {W : Type 0} → IpRuleType → W → ℕ → List (Event W) → Type 0
Wrote rule w t [] = ⊥
Wrote rule w t (looked said_rule w' ∷ log) = Wrote rule w t log
Wrote rule w t (wrote cached_rule w' at ∷ log) =
    ((cached_rule ≡ rule) × (w' ≡ w) × (at ≡ t)) ⊎ Wrote rule w t log

module _ {W : Type 0} (r : Redis W) (env : Env W) (v : View W) (reader : IpRuleReader W)
    (net : String) where
  open v use {live, clock}

  -- A lookup of the table, by a query of some address of the network.
  pub record Lookup (rule : IpRuleType) (w : W) : Type 0 where
    pub address : Processed
    pub of_net : net_string address.ip_net ≡ net
    pub says : said (reader.query_ip address.version address.ip w).0 ≡ some rule

  -- A step that writes no rule of the network.
  abbrev pub Kept : W → W → Type 0
  Kept w w' =
      (clock w ≤ clock w')
      × ((t : ℕ)
          → clock w' ≤ t
          → (live w' t (rule_key net) ≡ live w t (rule_key net))
            ⊎ (live w' t (rule_key net) ≡ none))

  -- The worlds that queries of the network's addresses reach, each of which looks the rule up at
  -- one time and caches it at another, and other steps between these, which may change the table, and
  -- delete the cached rule or let it expire, but write none; with the events on the way, the last
  -- one first.
  pub data History : W → List (Event W) → Type 0 where
    start : {w : W} → ((t : ℕ) → clock w ≤ t → live w t (rule_key net) ≡ none) → History w []
    table_asked :
        {w : W} {log : List (Event W)} (rule : IpRuleType) (found : Lookup rule w)
        → Kept w (reader.query_ip found.address.version found.address.ip w).1
        → History w log
        → History (reader.query_ip found.address.version found.address.ip w).1 (looked rule w ∷ log)
    remembered :
        {w : W} {log : List (Event W)} (rule : IpRuleType) (w₀ : W)
        → Saw rule w₀ log
        → History w log
        → History (remember reader (rule_cache r) net rule w).1 (wrote rule w₀ (clock w) ∷ log)
    other : {w w' : W} {log : List (Event W)} → Kept w w' → History w log → History w' log

  -- A rule that is at most as old as its time to live: one of the events cached it, at a time not after t
  -- and less than the time to live before t; and the lookup before that said it.
  pub record Young (log : List (Event W)) (rule : IpRuleType) (t : ℕ) : Type 0 where
    pub looked_up_in : W
    pub cached_at : ℕ
    pub event : Wrote rule looked_up_in cached_at log
    pub lookup : Lookup rule looked_up_in
    pub before : clock looked_up_in ≤ cached_at
    pub past : cached_at ≤ t
    pub lifetime : ℕ
    pub of_rule : Lifetime rule lifetime
    pub young : t < cached_at + lifetime
