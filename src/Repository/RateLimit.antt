-- ===== src/Repository/RateLimit.antt =====
-- internal/repository/ratelimit_repo.go: the sliding window, the abuse counter, and their Lua
-- scripts over the commands of Redis.
pub mod Window
pub mod Strikes
use Prim.Native.String.{◌++◌}
use ktauth.Prelude.{
  ℕ, ◌+◌, ◌/◌, ℤ, pos, negsuc, sub_ℕ, lt_int, eq_int, is_one, is_minus_one, Bool, String, ◌==◌,
  if◌then◌else◌,
}
use ktauth.Errors.{Error, errorf, wrapf}
use ktauth.Effects.{Result, ok, err, on, Op}
use ktauth.Redis.{Redis, Reply, int, other, Env}

module _ {W : Type 0} (r : Redis W) where
  -- slidingWindowScript
  unfoldable pub sliding_window : String → ℕ → ℤ → ℕ → String → W → ℤ × W
  sliding_window key window limit now member w =
      let w₁ = r.call_zremrangebyscore key (sub_ℕ now window) w in
      let count = r.call_zcard key w₁ in
      if lt_int count limit
      then (pos 1, r.call_pexpire key window (r.call_zadd key now member w₁))
      else (pos 0, w₁)

  -- the EXPIRE of the first increment
  unfoldable pub first_expire : String → ℤ → ℕ → W → W
  first_expire key ttl cnt w = if cnt == 1 then r.call_expire key ttl w else w

  -- increaseWithExpireScript; the ttl is in seconds
  unfoldable pub increase_with_expire : String → ℤ → ℤ → W → ℤ × W
  unfolding first_expire
  increase_with_expire key ttl limit w =
      let (cnt, w₁) = r.call_incr key w in
      let w₂ = first_expire key ttl cnt w₁ in
      if eq_int cnt limit then (negsuc 0, r.call_del key w₂) else (pos cnt, w₂)

-- int(window.Seconds()), for windows in nanoseconds: the whole seconds, towards zero. (Seconds is a
-- float64, which is exact for whole seconds.)
unfoldable pub seconds : ℤ → ℤ
seconds (pos ns) = pos (ns / 1000000000)
seconds (negsuc n) = sub_ℕ 0 ((n + 1) / 1000000000)

-- The result of a script, by a test on the int64.
script_result : (ℤ → Bool) → Result Reply → Result Bool
script_result test (err e) = err (wrapf "failed to execute rate limit script: " e)
script_result test (ok (int n)) = ok (test n)
script_result test (ok (other kind)) =
    err (errorf ("unexpected result type from redis script: " ++ kind))

module _ {W : Type 0} (r : Redis W) (env : Env W) where
  -- Allow; the window is in milliseconds
  unfoldable pub allow : String → ℤ → ℕ → Op W Bool
  unfolding script_result sliding_window
  allow ip limit window w =
      let key = "ratelimit:ip:" ++ ip in
      let now = env.now_ms w in
      let (member, w₁) = env.new_uuid w in
      let (reply, w₂) = r.eval (sliding_window r key window limit now member) w₁ in
      (script_result is_one reply, w₂)

module _ {W : Type 0} (r : Redis W) where
  -- Abuse; the window is in nanoseconds
  unfoldable pub abuse : String → ℤ → ℤ → Op W Bool
  unfolding script_result increase_with_expire seconds
  abuse ip limit window w =
      let key = "abuse:429:" ++ ip in
      let (reply, w₁) = r.eval (increase_with_expire r key (seconds window) limit) w in
      (script_result is_minus_one reply, w₁)

  -- Delete
  unfoldable pub delete : String → Op W (Unit {0})
  delete ip w = r.del ("ratelimit:ip:" ++ ip) w
