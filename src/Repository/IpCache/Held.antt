-- ===== src/Repository/IpCache/Held.antt =====
-- internal/repository/iprule_cache.go: what Get answers, and how long what Cache stored is there.
use ktauth.Prelude.{
  ◌+◌, ◌<◌, String, true, none, some, [], ◌∷◌, ltb, Bool-cases, ◌≡◌, ◌∙◌, inl, inr, refl, arith,
  if◌then◌else◌,
}
use ktauth.Errors.{Error, is_redis_nil}
use ktauth.Effects.{ok, err, Result-cases}
use ktauth.Redis.{Redis, Env}
use ktauth.Redis.Laws.{View, text, Untouched, StringLaws}
use ktauth.Model.{IpRuleType}
use ktauth.Repository.IpCache.{ttl, rule_key, cache, get}

module _ {W : Type 0} {r : Redis W} {env : Env W} {v : View W} (l : StringLaws r env v) where
  open v use {live, clock}

  pub get-held :
      (ip : String) (rule : IpRuleType) (w : W)
      → (get r ip w).0 ≡ ok rule
      → live w (clock w) (rule_key ip) ≡ some (text rule)
  unfolding get
  get-held ip rule w hit = elim (Result-cases (r.get (rule_key ip) w).0) [
    | inl (s, found) ↦ l.get-ok (rule_key ip) rule w (rw found (rw found at hit))
    | inr (x, failed) ↦ elim (Bool-cases (is_redis_nil x)) [
      | inl nil ↦ absurd (cc (rw (failed, nil) at hit))
      | inr other ↦ absurd (cc (rw (failed, other) at hit))
    ]
  ]

  -- GET fails for no other reason than a missing key.
  abbrev pub Answers : String → W → Type 0
  Answers ip w = (e : Error) → (r.get (rule_key ip) w).0 ≡ err e → is_redis_nil e ≡ true

  pub held-get :
      (ip : String) (rule : IpRuleType) (w : W)
      → Answers ip w
      → live w (clock w) (rule_key ip) ≡ some (text rule)
      → (get r ip w).0 ≡ ok rule
  unfolding get
  held-get ip rule w answers here = elim (l.get-live (rule_key ip) rule w here) [
    | inl found ↦ rw found refl
    | inr (e, failed, other) ↦ absurd (cc (answers e failed))
  ]

  -- A rule that was cached is there until its time to live is over, if nothing else writes its key.
  pub cache-held :
      (ip : String) (rule : IpRuleType) (w w₂ : W)
      → (cache r rule (ip ∷ []) w).0 ≡ ok tt
      → 0 < ttl rule
      → Untouched r env v (rule_key ip) (cache r rule (ip ∷ []) w).1 w₂
      → live w₂ (clock w₂) (rule_key ip)
        ≡ (if ltb (clock w₂) (clock w + ttl rule) then some (text rule) else none)
  unfolding cache
  cache-held ip rule w w₂ cached long kept =
      let time = l.pipe_set-clock (rule_key ip) rule (ttl rule) w in
      kept.same (clock w₂) (omega arith)
      ∙ l.pipe_set-live (rule_key ip) rule (ttl rule) w (clock w₂) cached long
          (omega (arith, kept.later))
