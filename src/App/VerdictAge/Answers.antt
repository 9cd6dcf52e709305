-- ===== src/App/VerdictAge/Answers.antt =====
-- internal/service/access/ip.go: what QueryRule answers after queries and other steps.
use ktauth.Prelude.{
  ℕ, String, some, List, [], ◌∷◌, ◌≡◌, ◌⊎◌, ◌∙◌, inl, inr, sym, ap, subst, arith, refl, ◌++◌,
}
use ktauth.Effects.{Result, ok}
use ktauth.Redis.{Redis, Env}
use ktauth.Redis.Laws.{View, StringLaws}
use ktauth.Net.Print.{net_string}
use ktauth.IpUtils.{Processed, process_ip}
use ktauth.Model.{IpRuleType}
use ktauth.Repository.IpCache
use ktauth.Repository.IpCache.{ttl, rule_key}
use ktauth.Repository.IpCache.Held.{get-held}
use ktauth.Access.IpService.{IpRuleReader, remember, query_rule}
use ktauth.Access.IpService.Verdict.{Answer, said, cached, looked_up, query_rule-Answer}
use ktauth.Admin.Rules.TakesEffect.{rule_cache}
use ktauth.App.VerdictAge.{Event, looked, wrote, Saw, Lookup, Kept, History, Young}
use ktauth.App.VerdictAge.Aging.{history-IsYoung}

module _ {W : Type 0} {r : Redis W} {env : Env W} {v : View W} (l : StringLaws r env v)
    (reader : IpRuleReader W) (net : String) where
  open v use {live, clock}

  -- A query that nothing overlaps extends such a history, where GET and the table write no rule.
  query_rule-History :
      (ip : String) (w : W) (log : List (Event W)) (p : Processed)
      → ((k : String) (u : W) → Kept r env v reader net u (r.get k u).1)
      → ((n : ℕ) (a : List ℕ) (u : W) → Kept r env v reader net u (reader.query_ip n a u).1)
      → process_ip ip ≡ ok p
      → net_string p.ip_net ≡ net
      → History r env v reader net w log
      → (more : List (Event W)) × History r env v reader net
          (query_rule reader (rule_cache r) ip w).1
          (more ++ log)
  unfolding remember IpCache.get Saw
  query_rule-History ip w log p gets queries valid of_net h =
      let read = History.other (gets (rule_key (net_string p.ip_net)) w) h in
      let looked_at = queries p.version p.ip (cached reader (rule_cache r) p w).1 in
      elim (query_rule-Answer reader (rule_cache r) ip w) [
        | Answer.invalid e x bad out ↦ absurd (cc)
        | Answer.from_cache p' rule valid' hit out ↦
            let same : p ≡ p' = cc in
            (
              [],
              subst (λ u. History r env v reader net u log)
                  (ap (λ q. (cached reader (rule_cache r) q w).1) same
                    ∙ sym (ap (λ (o : Result IpRuleType × W). o.1) out))
                  read,
            )
        | Answer.from_table p' x rule valid' miss says out ↦
            let same : p' ≡ p = cc in
            let says' =
              subst (λ q. said (looked_up reader (rule_cache r) q w).0 ≡ some rule) same says in
            let w₁ = (cached reader (rule_cache r) p w).1 in
            let found : Lookup r env v reader net rule w₁ = record {
              address = p;
              of_net = of_net;
              says = says';
            } in
            let w₂ = (looked_up reader (rule_cache r) p w).1 in
            let done =
              History.remembered rule w₁ (inl (refl, refl))
                (History.table_asked rule found looked_at read) in
            (
              wrote rule w₁ (clock w₂) ∷ (looked rule w₁ ∷ []),
              subst
                  (λ u.
                    History r env v reader net u
                      (wrote rule w₁ (clock w₂) ∷ (looked rule w₁ ∷ log)))
                  (ap (λ (k : String). (remember reader (rule_cache r) k rule w₂).1) (sym of_net)
                    ∙ ap
                        (λ q.
                          (remember reader (rule_cache r) (net_string q.ip_net) rule
                            (looked_up reader (rule_cache r) q w).1).1)
                        (sym same)
                    ∙ sym (ap (λ (o : Result IpRuleType × W). o.1) out))
                  done,
            )
        | Answer.failed p' x y valid' miss says out ↦
            let same : p ≡ p' = cc in
            (
              [],
              subst (λ u. History r env v reader net u log)
                  (ap (λ q. (looked_up reader (rule_cache r) q w).1) same
                    ∙ sym (ap (λ (o : Result IpRuleType × W). o.1) out))
                  (History.other looked_at read),
            )
      ]

  -- A rule that QueryRule answers is what the table says of the address now, or a young one.
  pub answer_age :
      (ip : String) (w : W) (log : List (Event W)) (p : Processed) (rule : IpRuleType)
      → History r env v reader net w log
      → process_ip ip ≡ ok p
      → net_string p.ip_net ≡ net
      → (query_rule reader (rule_cache r) ip w).0 ≡ ok rule
      → (said (looked_up reader (rule_cache r) p w).0 ≡ some rule)
        ⊎ Young r env v reader net log rule (clock w)
  answer_age ip w log p rule h valid of_net answered =
      elim (query_rule-Answer reader (rule_cache r) ip w) [
        | Answer.invalid e x bad out ↦ absurd (cc)
        | Answer.from_cache p' rule' valid' hit out ↦
            let same : p' ≡ p = cc in
            let hit' = subst (λ q. (cached reader (rule_cache r) q w).0 ≡ ok rule') same hit in
            let one : rule' ≡ rule = cc (ap (λ (o : Result IpRuleType × W). o.0) out) in
            let held = get-held l (net_string p.ip_net) rule' w hit' in
            inr (
              history-IsYoung l reader net w log h rule (clock w) (omega arith)
                (rw (of_net, one) at held))
        | Answer.from_table p' x rule' valid' miss says out ↦
            let same : p' ≡ p = cc in
            let says' =
              subst (λ q. said (looked_up reader (rule_cache r) q w).0 ≡ some rule') same says in
            let one : rule' ≡ rule = cc (ap (λ (o : Result IpRuleType × W). o.0) out) in
            inl (rw one at says')
        | Answer.failed p' x y valid' miss says out ↦
            absurd (cc (ap (λ (o : Result IpRuleType × W). o.0) out))
      ]
