-- ===== src/Repository/Keys.antt =====
-- The repositories that keep one Redis key for each item: internal/repository/session_repo.go,
-- register_repo.go and countdown_repo.go.
pub mod SingleUse
pub mod Lifetimes
use Prim.Native.String.{◌++◌}
use ktauth.Prelude.{ℕ, ◌*◌, String, Bool, true, false, if◌then◌else◌}
use ktauth.Errors.{is_redis_nil}
use ktauth.Effects.{Result, ok, err, Op}
use ktauth.Redis.{Redis}

abbrev pub session_key : String → String → String
session_key uuid jti = "jwt:active:" ++ (uuid ++ (":" ++ jti))

abbrev pub register_key : String → String → String
register_key email code = "register:" ++ (email ++ (":" ++ code))

-- 144 hours, in milliseconds
abbrev pub session_ttl : ℕ
session_ttl = 144 * 3600000

-- 15 minutes and one minute, in milliseconds
abbrev pub code_ttl : ℕ
code_ttl = 15 * 60000

abbrev pub countdown_ttl : ℕ
countdown_ttl = 60000

-- `redis.Nil` is a plain false.
pub found : Result String → Result Bool
found (ok v) = ok true
found (err e) = if is_redis_nil e then ok false else err e

module _ {W : Type 0} (r : Redis W) where
  -- SessionRepo.CreateSession, GetSession, DelSession
  unfoldable pub create_session : String → String → Op W (Unit {0})
  create_session uuid jti w = r.set (session_key uuid jti) uuid session_ttl w

  unfoldable pub get_session : String → String → Op W String
  get_session uuid jti w = r.get (session_key uuid jti) w

  unfoldable pub del_session : String → String → Op W (Unit {0})
  del_session uuid jti w = r.del (session_key uuid jti) w

  -- RegisterRepo.Set, Validate
  unfoldable pub register_set : String → String → Op W (Unit {0})
  register_set email code w = r.set (register_key email code) "" code_ttl w

  unfoldable pub register_validate : String → String → Op W Bool
  unfolding found
  register_validate email code w =
      let (value, w₁) = r.get_del (register_key email code) w in (found value, w₁)

  -- CountDownRepo.Set, CD
  unfoldable pub countdown_set : String → Op W (Unit {0})
  countdown_set key w = r.set key "" countdown_ttl w

  unfoldable pub countdown_cd : String → Op W Bool
  unfolding found
  countdown_cd key w = let (value, w₁) = r.get key w in (found value, w₁)
