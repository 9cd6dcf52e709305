-- ===== src/Repository/Keys/Lifetimes.antt =====
-- internal/repository/register_repo.go and countdown_repo.go: how long a registration code and a
-- cooldown last.
use ktauth.Prelude.{
  ℕ, ◌⊎◌, ◌+◌, ◌≤◌, String, true, false, none, some, ltb, Bool-cases, ◌≡◌, ◌≢◌, ◌∙◌, refl, inl, inr,
  arith, if◌then◌else◌,
}
use ktauth.Errors.{Error, is_redis_nil}
use ktauth.Effects.{Result, ok, err}
use ktauth.Redis.{Redis, Env}
use ktauth.Redis.Laws.{View, text, Untouched, StringLaws}
use ktauth.Repository.Keys.{
  register_key, code_ttl, countdown_ttl, found, register_set, register_validate, countdown_set,
  countdown_cd,
}
use ktauth.Repository.Keys.SingleUse.{code_once, found-value}

-- A read fails for no other reason than a missing key.
abbrev pub OnlyMisses : Result String → Type 0
OnlyMisses out = (e : Error) → out ≡ err e → is_redis_nil e ≡ true

module _ {W : Type 0} {r : Redis W} {env : Env W} {v : View W} (l : StringLaws r env v) where
  open v use {live, clock}

  -- A key that was set with a time to live, if nothing else writes it.
  set-held :
      (k : String) (ms : ℕ) (w w₂ : W) (t : ℕ)
      → (r.set k "" ms w).0 ≡ ok tt
      → Untouched r env v k (r.set k "" ms w).1 w₂
      → clock w₂ ≤ t
      → live w₂ t k ≡ (if ltb t (clock w + ms) then some (text "") else none)
  set-held k ms w w₂ t done kept now =
      let time = l.set-clock k "" ms w in
      kept.same t now ∙ l.set-live k "" ms w t done (omega (arith, kept.later))

  missed :
      (out : Result String) → OnlyMisses out → ((s : String) → out ≢ ok s) → found out ≡ ok false
  unfolding found
  missed (ok s) misses none_found = absurd (none_found s refl)
  missed (err e) misses none_found = rw (misses e refl) refl

  found_text :
      (out : Result String)
      → OnlyMisses out
      → ((out ≡ ok "") ⊎ ((e : Error) × (out ≡ err e) × (is_redis_nil e ≡ false)))
      → found out ≡ ok true
  unfolding found
  found_text out misses (inl there) = rw there refl
  found_text out misses (inr (e, failed, other)) = absurd (cc (misses e failed))

  -- After its time to live, a code is refused whether or not it was tried before.
  expired :
      (email code : String) (w w₂ w₃ : W)
      → (register_set r email code w).0 ≡ ok tt
      → Untouched r env v (register_key email code) (register_set r email code w).1 w₂
      → clock w + code_ttl ≤ clock w₂
      → Untouched r env v (register_key email code) (register_validate r email code w₂).1 w₃
      → (register_validate r email code w₃).0 ≢ ok true
  unfolding register_set register_validate
  expired email code w w₂ w₃ stored kept late later accepted =
      let key = register_key email code in
      let now = l.get_del-clock key w₂ in
      let onward : clock w₂ ≤ clock w₃ = omega (arith, later.later) in
      let held = set-held key code_ttl w w₂ (clock w₃) stored kept onward in
      let over : ltb (clock w₃) (clock w + code_ttl) ≡ false = ground arith in
      let old : live w₂ (clock w₃) key ≡ none = rw over at held in
      let gone : live w₃ (clock w₃) key ≡ none =
        later.same (clock w₃) (omega arith) ∙ elim (l.get_del-kept key w₂ (clock w₃) onward) [
          | inl same ↦ same ∙ old
          | inr none_left ↦ none_left
        ] in
      let (s, there) = found-value l _ accepted in absurd (cc (l.get_del-ok key s w₃ there))

  -- While GETDEL fails for no other reason than a missing key, and nothing else writes its key:
  -- Validate accepts a registration code that was stored, exactly within 15 minutes, and once it
  -- was tried with its address, accepts it at no later time; given the documented behaviour of
  -- the Redis commands.
  pub code_life :
      (email code : String) (w w₂ w₃ : W)
      → (register_set r email code w).0 ≡ ok tt
      → Untouched r env v (register_key email code) (register_set r email code w).1 w₂
      → OnlyMisses (r.get_del (register_key email code) w₂).0
      → Untouched r env v (register_key email code) (register_validate r email code w₂).1 w₃
      → ((register_validate r email code w₂).0 ≡ ok (ltb (clock w₂) (clock w + code_ttl)))
        × ((register_validate r email code w₃).0 ≢ ok true)
  unfolding register_set register_validate
  code_life email code w w₂ w₃ stored kept misses later =
      let key = register_key email code in
      let held = set-held key code_ttl w w₂ (clock w₂) stored kept (omega arith) in
      elim (Bool-cases (ltb (clock w₂) (clock w + code_ttl))) [
        | inl young ↦
            let here : live w₂ (clock w₂) key ≡ some (text "") = rw young at held in
            let accepted = found_text _ misses (l.get_del-held key "" w₂ here) in
            (rw young accepted, code_once l email code w₂ w₃ accepted later)
        | inr old ↦
            let gone : live w₂ (clock w₂) key ≡ none = rw old at held in
            let late : clock w + code_ttl ≤ clock w₂ = ground arith in
            (
              rw old (missed _ misses (λ s there. absurd (cc (l.get_del-ok key s w₂ there)))),
              expired email code w w₂ w₃ stored kept late later,
            )
      ]

  -- A cooldown lasts its minute.
  pub cooldown_life :
      (k : String) (w w₂ : W)
      → (countdown_set r k w).0 ≡ ok tt
      → Untouched r env v k (countdown_set r k w).1 w₂
      → OnlyMisses (r.get k w₂).0
      → (countdown_cd r k w₂).0 ≡ ok (ltb (clock w₂) (clock w + countdown_ttl))
  unfolding countdown_set countdown_cd
  cooldown_life k w w₂ started kept misses =
      let held = set-held k countdown_ttl w w₂ (clock w₂) started kept (omega arith) in
      elim (Bool-cases (ltb (clock w₂) (clock w + countdown_ttl))) [
        | inl young ↦
            let here : live w₂ (clock w₂) k ≡ some (text "") = rw young at held in
            rw young (found_text _ misses (l.get-live k "" w₂ here))
        | inr old ↦
            let gone : live w₂ (clock w₂) k ≡ none = rw old at held in
            rw old (missed _ misses (λ s there. absurd (cc (l.get-ok k s w₂ there))))
      ]
