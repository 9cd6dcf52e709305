-- ===== src/App/Connect/Ending.antt =====
-- cmd/ktauth/main.go, connectPostgres: how the loop ends.
use ktauth.Prelude.{ℕ, zero, suc, ◌+◌, ◌*◌, ◌≤◌, ◌<◌, Bool, true, false, some, ◌≡◌, refl, arith}
use ktauth.Errors.{Error, wrapf}
use ktauth.Effects.{Result, ok, err}
use ktauth.App.Connect.{Connecting, next_backoff, connect_loop, connect_postgres}

-- A clock that an attempt does not turn back; the select takes ctx.Done() where the context is done
-- before the pause, and takes time.After only once the pause is over.
pub record WaitLaws {W Pool : Type 0} (c : Connecting W Pool) (deadline : ℕ) : Type 0 where
  pub clock : W → ℕ
  pub attempt-later : (w : W) → clock w ≤ clock (c.new_postgres w).1
  pub wait-done : (b : ℕ) (w : W) → 0 < b → deadline ≤ clock w → (c.wait b w).0 ≡ true
  pub wait-after : (b : ℕ) (w : W) → (c.wait b w).0 ≡ false → clock w + b ≤ clock (c.wait b w).1

module _ {W Pool : Type 0} (c : Connecting W Pool) where
  -- How the loop may end.
  pub data Ended : Result Pool × W → Type 0 where
    connected :
        (w : W) (pool : Pool) (w' : W) → c.new_postgres w ≡ (ok pool, w') → Ended (ok pool, w')
    timed_out :
        (w w₁ w' : W) (e : Error) (backoff : ℕ)
        → c.new_postgres w ≡ (err e, w₁)
        → backoff ≤ 8000
        → c.wait backoff w₁ ≡ (true, w')
        → Ended (err (wrapf "Postgres connection timeout: " e), w')

module _ {W Pool : Type 0} {c : Connecting W Pool} {deadline : ℕ} (l : WaitLaws c deadline) where
  Ends : ℕ → ℕ → W → Type 0
  Ends rounds backoff w =
      (out : Result Pool × W) × (connect_loop c rounds backoff w ≡ some out) × Ended c out

  backoff-range : (b : ℕ) → 1000 ≤ b → (1000 ≤ next_backoff b) × (next_backoff b ≤ 8000)
  unfolding next_backoff
  backoff-range b h = ground arith

  -- One round with a known attempt and a known wait.
  round-Ends :
      (rounds b : ℕ) (w w₁ w₂ : W) (attempt : Result Pool) (done : Bool)
      → b ≤ 8000
      → c.new_postgres w ≡ (attempt, w₁)
      → c.wait b w₁ ≡ (done, w₂)
      → (done ≡ false → Ends rounds (next_backoff b) w₂)
      → Ends (suc rounds) b w
  unfolding Ends connect_loop
  round-Ends rounds b w w₁ w₂ (ok pool) done small e f more =
      ((ok pool, w₁), rw e refl, connected w pool w₁ e)
  round-Ends rounds b w w₁ w₂ (err x) true small e f more = (
    (err (wrapf "Postgres connection timeout: " x), w₂),
    rw (e, f) refl,
    timed_out w w₁ w₂ x b e small f,
  )
  round-Ends rounds b w w₁ w₂ (err x) false small e f more =
      let (out, again, how) = more refl in (out, rw (e, f) again, how)

  loop-Ends :
      (rounds b : ℕ) (w : W)
      → 1000 ≤ b
      → b ≤ 8000
      → deadline ≤ l.clock w + 1000 * rounds
      → Ends (suc rounds) b w
  loop-Ends zero b w large small late =
      let w₁ = (c.new_postgres w).1 in
      let done = l.wait-done b w₁ (omega arith) (omega (arith, l.attempt-later w)) in
      round-Ends zero b w w₁ (c.wait b w₁).1 _ _ small refl refl (λ waited. absurd (cc))
  loop-Ends (suc rounds) b w large small late =
      let w₁ = (c.new_postgres w).1 in
      round-Ends (suc rounds) b w w₁ (c.wait b w₁).1 _ _ small refl refl (λ waited.
        let (floor, top) = backoff-range b large in
        loop-Ends rounds (next_backoff b) (c.wait b w₁).1 floor top
          (omega (arith, l.attempt-later w, l.wait-after b w₁ waited)))

  -- connectPostgres ends: with a timeout of at most n seconds, n + 1 rounds of its loop are
  -- enough, given a clock that attempts do not turn back and a select that takes ctx.Done() where
  -- the context is done and time.After only once the pause is over; it returns the pool of an
  -- attempt that succeeded, or the wrapped error of one behind which the time was up.
  pub connect_postgres-Ended :
      (n : ℕ) (w : W)
      → deadline ≤ l.clock w + 1000 * n
      → (out : Result Pool × W) × (connect_postgres c (suc n) w ≡ some out) × Ended c out
  unfolding connect_postgres Ends
  connect_postgres-Ended n w late = loop-Ends n 1000 w (omega arith) (omega arith) late
