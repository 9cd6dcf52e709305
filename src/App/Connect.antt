-- ===== src/App/Connect.antt =====
-- cmd/ktauth/main.go, connectPostgres: attempts with a growing pause until one succeeds or the time is up.
pub mod Ending
use ktauth.Prelude.{
  ℕ, zero, suc, ◌+◌, ◌*◌, ◌≤◌, ◌<◌, Bool, true, false, Option, none, some, ltb, ◌≡◌, if◌then◌else◌,
}
use ktauth.Errors.{Error, wrapf}
use ktauth.Effects.{Result, ok, err, on, Op}

-- db.NewPostgres, and the select between ctx.Done() and time.After(backoff): true where the context is
-- done.
pub record Connecting (W Pool : Type 0) : Type 0 where
  pub new_postgres : Op W Pool
  pub wait : ℕ → W → Bool × W

-- Twice the pause, but at most 8 seconds (in milliseconds).
unfoldable pub next_backoff : ℕ → ℕ
next_backoff backoff = if ltb 8000 (backoff * 2) then 8000 else backoff * 2

module _ {W Pool : Type 0} (c : Connecting W Pool) where
  -- The loop, with fuel for its rounds; none is that the fuel is used up.
  unfoldable pub connect_loop : ℕ → ℕ → W → Option (Result Pool × W)
  unfolding next_backoff
  connect_loop zero backoff w = none
  connect_loop (suc rounds) backoff w =
      let (pool, w₁) = c.new_postgres w in
      let (done, w₂) = c.wait backoff w₁ in
      let rest = connect_loop rounds (next_backoff backoff) w₂ in
      on pool (λ e. if done then some (err (wrapf "Postgres connection timeout: " e), w₂) else rest)
        (λ p. some (ok p, w₁))

  -- connectPostgres, from a pause of one second
  unfoldable pub connect_postgres : ℕ → W → Option (Result Pool × W)
  unfolding connect_loop
  connect_postgres rounds w = connect_loop rounds 1000 w
