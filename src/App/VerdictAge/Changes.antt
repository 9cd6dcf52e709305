-- ===== src/App/VerdictAge/Changes.antt =====
-- internal/service/admin/manage_iprule.go beside internal/service/access/ip.go: queries of a network, and
-- changes of the rules that run between them.
use Prim.Native.String.{◌++◌}
use ktauth.Prelude.{
  ℕ, ◌≤◌, String, Bool, Option, none, some, List, [], ◌∷◌, Bool-cases, ◌≡◌, ◌≢◌, ◌⊎◌, inl, inr,
  str_eq, eq_iff, arith, sym, subst,
}
use ktauth.Effects.{ok, Result-cases}
use ktauth.Redis.{Redis, Env}
use ktauth.Redis.Laws.{View, StringLaws}
use ktauth.Redis.Sets.{SetLaws}
use ktauth.Net.Print.{net_string}
use ktauth.Net.Bytes.{IpNet}
use ktauth.IpUtils.{Processed, process_ip}
use ktauth.Model.{IpRuleType}
use ktauth.Repository.IpCache
use ktauth.Repository.IpCache.{rule_key}
use ktauth.Repository.RateLimit
use ktauth.Access.IpService.{IpRuleReader, remember, query_rule}
use ktauth.Access.IpService.Verdict.{said, looked_up}
use ktauth.Admin.Rules.{IpRuleStore, invalidate, add_rule, del_rule}
use ktauth.Admin.Rules.TakesEffect.{rule_cache, cached_rules, recorded_requests}
use ktauth.App.VerdictAge.{Event, looked, wrote, Saw, Kept, Lookup, History, Young}
use ktauth.App.VerdictAge.Answers.{answer_age}

module _ {W : Type 0} (r : Redis W) (env : Env W) (v : View W) (reader : IpRuleReader W)
    (store : IpRuleStore W) (net : String) where
  open v use {live, clock}

  -- The table is another server, and GET writes nothing: none of these writes a rule of the network to
  -- the cache.
  pub record IsApart : Type 0 where
    pub gets : (k : String) (w : W) → Kept r env v reader net w (r.get k w).1
    pub queries :
        (version : ℕ) (ip : List ℕ) (w : W)
        → Kept r env v reader net w (reader.query_ip version ip w).1
    pub adds :
        (version : ℕ) (range : IpNet) (white : Bool) (note : Option String) (w : W)
        → Kept r env v reader net w (store.add_ip version range white note w).1
    pub deletes :
        (version : ℕ) (range : IpNet) (w : W)
        → Kept r env v reader net w (store.del_ip version range w).1

  -- The worlds that the program reaches from one without a cached rule of the network: by the steps of
  -- queries of its addresses, which look a rule up, and cache it whatever came between, by AddRule and
  -- DelRule of any range, and by other steps that write no rule of the network; with the events on the
  -- way, the last one first.
  pub data Reached : W → List (Event W) → Type 0 where
    empty : {w : W} → ((t : ℕ) → clock w ≤ t → live w t (rule_key net) ≡ none) → Reached w []
    table_asked :
        {w : W} {log : List (Event W)} (rule : IpRuleType)
        (found : Lookup r env v reader net rule w)
        → Reached w log
        → Reached (reader.query_ip found.address.version found.address.ip w).1 (looked rule w ∷ log)
    remembered :
        {w : W} {log : List (Event W)} (rule : IpRuleType) (w₀ : W)
        → Saw rule w₀ log
        → Reached w log
        → Reached (remember reader (rule_cache r) net rule w).1 (wrote rule w₀ (clock w) ∷ log)
    rule_added :
        {w : W} {log : List (Event W)} (ip : String) (white : Bool) (note : Option String)
        → Reached w log
        → Reached (add_rule store (cached_rules r) (recorded_requests r) ip white note w).1 log
    rule_deleted :
        {w : W} {log : List (Event W)} (ip : String)
        → Reached w log
        → Reached (del_rule store (cached_rules r) (recorded_requests r) ip w).1 log
    other :
        {w w' : W} {log : List (Event W)}
        → Kept r env v reader net w w'
        → Reached w log
        → Reached w' log

module _ {W : Type 0} {r : Redis W} {env : Env W} {v : View W} (l : StringLaws r env v)
    (sets : SetLaws r env v) (reader : IpRuleReader W) (store : IpRuleStore W) (net : String)
    (apart : IsApart r env v reader store net) where
  open v use {live, clock}

  abbrev IsHistory : W → List (Event W) → Type 0
  IsHistory = History r env v reader net

  abbrev Quiet : W → W → Type 0
  Quiet = Kept r env v reader net

  -- DEL of any key writes no rule.
  del-Kept_own : (w : W) → Quiet w (r.del (rule_key net) w).1
  del-Kept_own w =
      let time = sets.del-clock (rule_key net) w in
      (
        omega arith,
        λ t later. elim (sets.del-cases (rule_key net) w) [
          | inl changed ↦ inr (changed t (omega arith))
          | inr (e, failed, unchanged) ↦ inl (unchanged t (omega arith))
        ],
      )

  del-Kept : (k : String) (w : W) → Quiet w (r.del k w).1
  del-Kept k w =
      let time = sets.del-clock k w in
      elim (Bool-cases (str_eq k (rule_key net))) [
        | inl same ↦
            let one : k ≡ rule_key net = (eq_iff k (rule_key net)).0 same in
            subst (λ j. Quiet w (r.del j w).1) (sym one) (del-Kept_own w)
        | inr differ ↦
            let other : k ≢ rule_key net = ground (arith, eq_iff k (rule_key net)) in
            (omega arith, λ t later. inl (l.delete-other k (rule_key net) w t other (omega arith)))
      ]

  invalidate-History :
      (cidr : String) (w : W) (log : List (Event W))
      → IsHistory w log
      → IsHistory (invalidate store (cached_rules r) (recorded_requests r) cidr w) log
  unfolding invalidate IpCache.delete RateLimit.delete
  invalidate-History cidr w log h =
      History.other (del-Kept ("ratelimit:ip:" ++ cidr) (r.del (rule_key cidr) w).1)
        (History.other (del-Kept (rule_key cidr) w) h)

  add_rule-History :
      (ip : String) (white : Bool) (note : Option String) (w : W) (log : List (Event W))
      → IsHistory w log
      → IsHistory (add_rule store (cached_rules r) (recorded_requests r) ip white note w).1 log
  unfolding add_rule
  add_rule-History ip white note w log h = elim (Result-cases (process_ip ip)) [
    | inr (x, bad) ↦ rw bad h
    | inl (p, valid) ↦
        let w₁ = (store.add_ip p.version p.ip_net white note w).1 in
        let inserted = History.other (apart.adds p.version p.ip_net white note w) h in
        elim (Result-cases (store.add_ip p.version p.ip_net white note w).0) [
          | inr (x, failed) ↦ rw (valid, failed) inserted
          | inl (tt, done) ↦
              rw (valid, done) (invalidate-History (net_string p.ip_net) w₁ log inserted)
        ]
  ]

  del_rule-History :
      (ip : String) (w : W) (log : List (Event W))
      → IsHistory w log
      → IsHistory (del_rule store (cached_rules r) (recorded_requests r) ip w).1 log
  unfolding del_rule
  del_rule-History ip w log h = elim (Result-cases (process_ip ip)) [
    | inr (x, bad) ↦ rw bad h
    | inl (p, valid) ↦ rw valid (
        History.other
          (apart.deletes p.version p.ip_net
            (invalidate store (cached_rules r) (recorded_requests r) (net_string p.ip_net) w))
          (invalidate-History (net_string p.ip_net) w log h))
  ]

  steps-IsHistory :
      (w : W) (log : List (Event W)) → Reached r env v reader store net w log → IsHistory w log
  steps-IsHistory w _ (Reached.empty none_held) = History.start none_held
  steps-IsHistory _ _ (Reached.table_asked {w} {log} rule found h) =
      History.table_asked rule found (apart.queries found.address.version found.address.ip w)
        (steps-IsHistory w log h)
  steps-IsHistory _ _ (Reached.remembered {w} {log} rule w₀ m h) =
      History.remembered rule w₀ m (steps-IsHistory w log h)
  steps-IsHistory _ log (Reached.rule_added {w} ip white note h) =
      add_rule-History ip white note w log (steps-IsHistory w log h)
  steps-IsHistory _ log (Reached.rule_deleted {w} ip h) =
      del_rule-History ip w log (steps-IsHistory w log h)
  steps-IsHistory w' log (Reached.other {w} kept h) = History.other kept (steps-IsHistory w log h)

  -- Whatever steps of queries, AddRule and DelRule run between a query's lookup and its caching:
  -- a rule that QueryRule answers is what the table says of the address now, or one of the events
  -- of the history cached it, not later than now and less than 30 minutes ago for a whitelisting,
  -- 60 for a blacklisting, 5 for the greylist, after an earlier lookup of that history in which
  -- the table said it of some address of the same network; whatever replies of Redis are lost.
  -- This is for any history of such steps from a world without a cached rule of the network, in
  -- which only queries write the cached rule, where the table is another server than Redis; given
  -- the documented behaviour of the Redis commands.
  pub verdict_age :
      (ip : String) (w : W) (log : List (Event W)) (p : Processed) (rule : IpRuleType)
      → Reached r env v reader store net w log
      → process_ip ip ≡ ok p
      → net_string p.ip_net ≡ net
      → (query_rule reader (rule_cache r) ip w).0 ≡ ok rule
      → (said (looked_up reader (rule_cache r) p w).0 ≡ some rule)
        ⊎ Young r env v reader net log rule (clock w)
  verdict_age ip w log p rule reached valid of_net answered =
      answer_age l reader net ip w log p rule (steps-IsHistory w log reached) valid of_net answered
