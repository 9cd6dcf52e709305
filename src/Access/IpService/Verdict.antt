-- ===== src/Access/IpService/Verdict.antt =====
-- internal/service/access/ip.go: the answers of QueryRule, and a cache that agrees with the
-- table.
use Prim.Native.String.{◌++◌}
use ktauth.Prelude.{
  String, Bool, Option, none, some, [], ◌∷◌, Bool-cases, ◌≡◌, ◌↔◌, refl, inl, inr, ap, subst,
  if◌then◌else◌,
}
use ktauth.Errors.{Error, is_ip_not_found, errorf, message}
use ktauth.Effects.{Result, ok, err, Result-cases}
use ktauth.Net.Print.{net_string}
use ktauth.IpUtils.{Processed, process_ip}
use ktauth.Model.{IpRuleType, ip_grey_list}
use ktauth.Access.IpService.{IpRuleReader, IpRuleCache, listed, remember, query_table, query_rule}

-- What the table says of an address: the type of the row that covers it, greylisted where there is
-- none, and nothing where the lookup failed.
abbrev pub said : Result Bool → Option IpRuleType
said (ok white) = some (listed white)
said (err e) = if is_ip_not_found e then some ip_grey_list else none

module _ {W : Type 0} (reader : IpRuleReader W) (store : IpRuleCache W) where
  -- The cache's answer for the network of an address, and the table's behind it.
  abbrev pub cached : Processed → W → Result String × W
  cached p w = store.get (net_string p.ip_net) w

  abbrev pub looked_up : Processed → W → Result Bool × W
  looked_up p w = reader.query_ip p.version p.ip (cached p w).1

  pub data Answer (ip : String) (w : W) (out : Result IpRuleType × W) : Type 0 where
    invalid : (e x : Error) → process_ip ip ≡ err e → out ≡ (err x, w) → Answer ip w out
    from_cache :
        (p : Processed) (rule : IpRuleType)
        → process_ip ip ≡ ok p
        → (cached p w).0 ≡ ok rule
        → out ≡ (ok rule, (cached p w).1)
        → Answer ip w out
    from_table :
        (p : Processed) (x : Error) (rule : IpRuleType)
        → process_ip ip ≡ ok p
        → (cached p w).0 ≡ err x
        → said (looked_up p w).0 ≡ some rule
        → out ≡ (ok rule, (store.cache rule (net_string p.ip_net ∷ []) (looked_up p w).1).1)
        → Answer ip w out
    failed :
        (p : Processed) (x y : Error)
        → process_ip ip ≡ ok p
        → (cached p w).0 ≡ err x
        → said (looked_up p w).0 ≡ none
        → out ≡ (err y, (looked_up p w).1)
        → Answer ip w out

  missed :
      (ip : String) (w : W) (p : Processed) (x : Error) (row : Result Bool) (w₂ : W)
      → process_ip ip ≡ ok p
      → (cached p w).0 ≡ err x
      → looked_up p w ≡ (row, w₂)
      → Answer ip w (query_table reader store p (cached p w).1)
  unfolding query_table remember
  missed ip w p x (ok white) w₂ valid miss e =
      from_table p x (listed white) valid miss (ap (λ (o : Result Bool × W). said o.0) e)
        (rw e refl)
  missed ip w p x (err y) w₂ valid miss e = elim (Bool-cases (is_ip_not_found y)) [
    | inl absent ↦
        from_table p x ip_grey_list valid miss (rw (e, absent) refl) (rw (e, absent) refl)
    | inr broken ↦
        failed p x (errorf ("Error when getting ip_rule from db: " ++ message y)) valid miss
          (rw (e, broken) refl) (rw (e, broken) refl)
  ]

  -- QueryRule refuses an address that does not parse, answers what the cache holds for the
  -- network of the address, and otherwise, also where the cache fails, what the table says of the
  -- address, which it then caches under that network; it fails only where the table does.
  pub query_rule-Answer : (ip : String) (w : W) → Answer ip w (query_rule reader store ip w)
  unfolding query_rule
  query_rule-Answer ip w = elim (Result-cases (process_ip ip)) [
    | inr (e, bad) ↦ rw bad (invalid e _ bad refl)
    | inl (p, valid) ↦ elim (Result-cases (cached p w).0) [
      | inl (rule, hit) ↦ rw (valid, hit) (from_cache p rule valid hit refl)
      | inr (x, miss) ↦ rw (valid, miss) (missed ip w p x _ _ valid miss refl)
    ]
  ]

  -- The cache holds no rule for an address but what the table says of it.
  abbrev pub IsCoherent : Processed → W → Type 0
  IsCoherent p w =
      (rule : IpRuleType) → (cached p w).0 ≡ ok rule → said (looked_up p w).0 ≡ some rule

  -- With a cache that holds nothing but what the table says of the address, or that fails,
  -- QueryRule answers a rule exactly if the table says it.
  pub query_rule_iff :
      (ip : String) (w : W) (p : Processed) (rule : IpRuleType)
      → process_ip ip ≡ ok p
      → IsCoherent p w
      → ((query_rule reader store ip w).0 ≡ ok rule) ↔ (said (looked_up p w).0 ≡ some rule)
  query_rule_iff ip w p rule valid coherent = elim (query_rule-Answer ip w) [
    | Answer.invalid e x bad out ↦ absurd (cc)
    | Answer.from_cache p' rule' valid' hit out ↦
        let same : p' ≡ p = cc in
        let agrees = coherent rule' (subst (λ q. (cached q w).0 ≡ ok rule') same hit) in
        let answer = ap (λ (o : Result IpRuleType × W). o.0) out in (λ e. cc, λ s. cc)
    | Answer.from_table p' x rule' valid' miss says out ↦
        let same : p' ≡ p = cc in
        let says' = subst (λ q. said (looked_up q w).0 ≡ some rule') same says in
        let answer = ap (λ (o : Result IpRuleType × W). o.0) out in (λ e. cc, λ s. cc)
    | Answer.failed p' x y valid' miss says out ↦
        let same : p' ≡ p = cc in
        let says' = subst (λ q. said (looked_up q w).0 ≡ none) same says in
        let answer = ap (λ (o : Result IpRuleType × W). o.0) out in
        (λ e. absurd (cc), λ s. absurd (cc))
  ]
