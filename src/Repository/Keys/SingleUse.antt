-- ===== src/Repository/Keys/SingleUse.antt =====
-- internal/repository/register_repo.go: the use of a registration code.
use ktauth.Prelude.{String, true, none, ◌≡◌, ◌≢◌, ◌∙◌, refl, inl, inr, arith, Bool-cases}
use ktauth.Errors.{is_redis_nil}
use ktauth.Effects.{Result, ok, err}
use ktauth.Redis.{Redis, Env}
use ktauth.Redis.Laws.{View, Untouched, StringLaws}
use ktauth.Repository.Keys.{register_key, found, register_validate}

module _ {W : Type 0} {r : Redis W} {env : Env W} {v : View W} (l : StringLaws r env v) where
  open v use {live, clock}

  -- A code that fits was answered by GETDEL.
  pub found-value : (o : Result String) → found o ≡ ok true → (s : String) × (o ≡ ok s)
  unfolding found
  found-value (ok s) e = (s, refl)
  found-value (err x) e = elim (Bool-cases (is_redis_nil x)) [
    | inl nil ↦ absurd (cc (rw nil at e))
    | inr other ↦ absurd (cc (rw other at e))
  ]

  -- Once Validate has accepted a registration code of an email address, it accepts it at no later
  -- time, until something writes its key again; given the documented behaviour of the Redis
  -- commands.
  pub code_once :
      (email code : String) (w w₂ : W)
      → (register_validate r email code w).0 ≡ ok true
      → Untouched r env v (register_key email code) (register_validate r email code w).1 w₂
      → (register_validate r email code w₂).0 ≢ ok true
  unfolding register_validate
  code_once email code w w₂ accepted kept again =
      let key = register_key email code in
      let (s, first) = found-value (r.get_del key w).0 accepted in
      let (s₂, second) = found-value (r.get_del key w₂).0 again in
      let before = l.get_del-clock key w in
      let gone : live w₂ (clock w₂) key ≡ none =
        kept.same (clock w₂) (omega arith)
        ∙ l.get_del-live key s w (clock w₂) first (omega (arith, kept.later)) in
      cc (l.get_del-ok key s₂ w₂ second)
