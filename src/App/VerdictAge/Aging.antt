-- ===== src/App/VerdictAge/Aging.antt =====
-- internal/repository/iprule_cache.go and internal/service/access/ip.go: the rules that Redis holds of a
-- network after queries and other steps.
use ktauth.Prelude.{
  Bool, true, false, ℕ, ◌+◌, ◌<◌, ◌≤◌, String, none, some, List, [], ◌∷◌, ltb, Bool-cases, ◌≡◌, ◌∙◌,
  inl, inr, sym, ap, subst, arith, refl, if◌then◌else◌,
}
use ktauth.Effects.{Result, ok, err, Result-cases}
use ktauth.Errors.{is_ip_not_found}
use ktauth.Redis.{Redis, Env}
use ktauth.Redis.Laws.{text, View, StringLaws}
use ktauth.Model.{IpRuleType}
use ktauth.Repository.IpCache
use ktauth.Repository.IpCache.{ttl, rule_key}
use ktauth.Access.IpService.{IpRuleReader, listed, remember}
use ktauth.Access.IpService.Verdict.{said}
use ktauth.Admin.Rules.TakesEffect.{rule_cache}
use ktauth.App.StaleRules.{said-ttl}
use ktauth.App.VerdictAge.{
  Event, looked, wrote, Lifetime, whitelisted, blacklisted, greylisted, Saw, Wrote, Lookup, Kept,
  History, Young,
}

listed-Lifetime :
    (white : Bool) (rule : IpRuleType) → some (listed white) ≡ some rule → Lifetime rule (ttl rule)
unfolding ttl
listed-Lifetime true rule says =
    let same : "whitelist" ≡ rule = cc in subst (λ s. Lifetime s (ttl s)) same whitelisted
listed-Lifetime false rule says =
    let same : "blacklist" ≡ rule = cc in subst (λ s. Lifetime s (ttl s)) same blacklisted

said-Lifetime :
    (row : Result Bool) (rule : IpRuleType) → said row ≡ some rule → Lifetime rule (ttl rule)
unfolding ttl
said-Lifetime (ok white) rule says = listed-Lifetime white rule says
said-Lifetime (err e) rule says = elim (Bool-cases (is_ip_not_found e)) [
  | inl absent ↦
      let same : "greylist" ≡ rule = cc (rw absent at says) in
      subst (λ s. Lifetime s (ttl s)) same greylisted
  | inr broken ↦ absurd (cc (rw broken at says))
]

later-Wrote :
    {W : Type 0} (e : Event W) (rule : IpRuleType) (w : W) (t : ℕ) (log : List (Event W))
    → Wrote rule w t log
    → Wrote rule w t (e ∷ log)
unfolding Wrote
later-Wrote (looked said_rule w') rule w t log m = m
later-Wrote (wrote cached_rule w' at) rule w t log m = inr m

module _ {W : Type 0} {r : Redis W} {env : Env W} {v : View W} (l : StringLaws r env v)
    (reader : IpRuleReader W) (net : String) where
  open v use {live, clock}

  -- Each lookup on the way said its rule, not later than now.
  abbrev Looked : W → List (Event W) → Type 0
  Looked w log =
      (rule : IpRuleType) (w₀ : W)
      → Saw rule w₀ log
      → Lookup r env v reader net rule w₀ × (clock w₀ ≤ clock w)

  abbrev IsYoung : W → List (Event W) → Type 0
  IsYoung w log =
      (rule : IpRuleType) (t : ℕ)
      → clock w ≤ t
      → live w t (rule_key net) ≡ some (text rule)
      → Young r env v reader net log rule t

  -- More events leave a rule as it is.
  later-Young :
      (e : Event W) (log : List (Event W)) (rule : IpRuleType) (t : ℕ)
      → Young r env v reader net log rule t
      → Young r env v reader net (e ∷ log) rule t
  later-Young e log rule t y = record {
    looked_up_in = y.looked_up_in;
    cached_at = y.cached_at;
    event = later-Wrote e rule y.looked_up_in y.cached_at log y.event;
    lookup = y.lookup;
    before = y.before;
    past = y.past;
    lifetime = y.lifetime;
    of_rule = y.of_rule;
    young = y.young;
  }

  -- What SET with a time to live leaves, seen at a time.
  set_young :
      (s rule : IpRuleType) (t d : ℕ)
      → (if ltb t d then some (text s) else none) ≡ some (text rule)
      → (s ≡ rule) × (t < d)
  set_young s rule t d held = elim (Bool-cases (ltb t d)) [
    | inl now ↦ ground arith
    | inr past ↦ absurd (cc (rw past at held))
  ]

  set-Young :
      (rule rule' : IpRuleType) (w₀ w : W) (log : List (Event W)) (t : ℕ)
      → clock w₀ ≤ clock w
      → clock w ≤ t
      → Lookup r env v reader net rule w₀
      → (if ltb t (clock w + ttl rule) then some (text rule) else none) ≡ some (text rule')
      → Young r env v reader net (wrote rule w₀ (clock w) ∷ log) rule' t
  unfolding Wrote
  set-Young rule rule' w₀ w log t before past found held =
      let (same, young) = set_young rule rule' t (clock w + ttl rule) held in
      subst (λ s. Young r env v reader net (wrote rule w₀ (clock w) ∷ log) s t) same
        (record {
          looked_up_in = w₀;
          cached_at = clock w;
          event = inl (refl, refl, refl);
          lookup = found;
          before = before;
          past = past;
          lifetime = ttl rule;
          of_rule = said-Lifetime _ rule found.says;
          young = young;
        })

  remembered-clock :
      (rule : IpRuleType) (w : W) → clock (remember reader (rule_cache r) net rule w).1 ≡ clock w
  unfolding remember IpCache.cache
  remembered-clock rule w = l.pipe_set-clock (rule_key net) rule (ttl rule) w

  remembered-IsYoung :
      (rule : IpRuleType) (w₀ w : W) (log : List (Event W))
      → clock w₀ ≤ clock w
      → Lookup r env v reader net rule w₀
      → IsYoung w log
      → IsYoung (remember reader (rule_cache r) net rule w).1 (wrote rule w₀ (clock w) ∷ log)
  unfolding remember IpCache.cache
  remembered-IsYoung rule w₀ w log before found good rule' t later held =
      let key = rule_key net in
      let long = said-ttl _ rule found.says in
      let time : clock (r.pipe_set ((key, rule, ttl rule) ∷ []) w).1 ≡ clock w =
        l.pipe_set-clock key rule (ttl rule) w in
      let now : clock w ≤ t = omega (arith, time) in
      elim (Result-cases (r.pipe_set ((key, rule, ttl rule) ∷ []) w).0) [
        | inl (tt, stored) ↦
            set-Young rule rule' w₀ w log t before now found
              (sym (l.pipe_set-live key rule (ttl rule) w t stored long now) ∙ held)
        | inr (e, failed) ↦ elim (l.pipe_set-err key rule (ttl rule) w e failed long) [
          | inl ran ↦ set-Young rule rule' w₀ w log t before now found (sym (ran t now) ∙ held)
          | inr kept ↦ later-Young _ log rule' t (good rule' t now (sym (kept t now) ∙ held))
        ]
      ]

  -- A step that writes no rule of the network leaves those that are not too old.
  Kept-IsYoung :
      {w w' : W} {log : List (Event W)}
      → Kept r env v reader net w w'
      → IsYoung w log
      → IsYoung w' log
  Kept-IsYoung (onward, kept) good = λ rule t later held. elim (kept t later) [
    | inl same ↦ good rule t (omega arith) (sym same ∙ held)
    | inr gone ↦ absurd (cc)
  ]

  looked-Looked :
      (rule : IpRuleType) (w w' : W) (log : List (Event W))
      → clock w ≤ clock w'
      → Lookup r env v reader net rule w
      → Looked w log
      → Looked w' (looked rule w ∷ log)
  unfolding Saw
  looked-Looked rule w w' log onward found good = λ rule' w₀ m. elim m [
    | inl (same_rule, same_world) ↦
        let same_clock = ap clock same_world in
        (
          subst (Lookup r env v reader net rule') same_world
              (subst (λ s. Lookup r env v reader net s w) same_rule found),
          omega arith,
        )
    | inr m' ↦ let (found', before) = good rule' w₀ m' in (found', omega arith)
  ]

  wrote-Looked :
      (rule : IpRuleType) (w₁ w w' : W) (t : ℕ) (log : List (Event W))
      → clock w ≤ clock w'
      → Looked w log
      → Looked w' (wrote rule w₁ t ∷ log)
  unfolding Saw
  wrote-Looked rule w₁ w w' t log onward good =
      λ rule' w₀ m. let (found, before) = good rule' w₀ m in (found, omega arith)

  start-Looked : (w : W) → Looked w []
  unfolding Saw
  start-Looked w = λ rule w₀ m. absurd m

  history-Looked : (w : W) (log : List (Event W)) → History r env v reader net w log → Looked w log
  history-Looked w _ (History.start none_held) = start-Looked w
  history-Looked _ _ (History.table_asked {w} {log} rule found (onward, kept) h) =
      looked-Looked rule w _ log onward found (history-Looked w log h)
  history-Looked _ _ (History.remembered {w} {log} rule w₁ m h) =
      let time = remembered-clock rule w in
      wrote-Looked rule w₁ w _ (clock w) log (omega arith) (history-Looked w log h)
  history-Looked w' log (History.other {w} (onward, kept) h) =
      λ rule w₀ m. let (found, before) = history-Looked w log h rule w₀ m in (found, omega arith)

  pub history-IsYoung :
      (w : W) (log : List (Event W)) → History r env v reader net w log → IsYoung w log
  history-IsYoung w _ (History.start none_held) =
      λ rule t later held. absurd (cc (none_held t later))
  history-IsYoung _ _ (History.table_asked {w} {log} rule found kept h) = λ rule' t later held.
      later-Young _ log rule' t (Kept-IsYoung kept (history-IsYoung w log h) rule' t later held)
  history-IsYoung _ _ (History.remembered {w} {log} rule w₀ m h) =
      let (found, before) = history-Looked w log h rule w₀ m in
      remembered-IsYoung rule w₀ w log before found (history-IsYoung w log h)
  history-IsYoung w' log (History.other {w} kept h) = Kept-IsYoung kept (history-IsYoung w log h)
