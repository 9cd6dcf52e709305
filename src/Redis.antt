-- ===== src/Redis.antt =====
-- The Redis server and its client library (go-redis): commands as operations on the world `W`, which
-- holds the state of every service behind the program. They are parameters of the model; what the
-- program relies on is in Redis/Laws.antt.
pub mod Laws
pub mod Sets
use ktauth.Prelude.{ℕ, ℤ, String, Bool, true, List}
use ktauth.Effects.{Op}

-- What a script's `Result()` holds: an int64, or a value of another type, whose name is kept.
pub data Reply : Type 0 where
  int : ℤ → Reply
  other : String → Reply

pub record Redis (W : Type 0) : Type 0 where
  -- SET key value PX ttl, with the ttl in milliseconds
  pub set : String → String → ℕ → Op W (Unit {0})
  -- GET and GETDEL; the error is `redis_nil` where the key is missing
  pub get : String → Op W String
  pub get_del : String → Op W String
  pub del : String → Op W (Unit {0})
  -- a pipeline of SETs
  pub pipe_set : List (String × String × ℕ) → Op W (Unit {0})
  pub scard : String → Op W ℕ
  pub sadd : String → List String → Op W (Unit {0})
  pub srem : String → String → Op W ℕ
  pub smembers : String → Op W (List String)
  pub srandmember : String → Op W String
  -- EVALSHA of a script, which the server runs in one step
  pub eval : (W → ℤ × W) → Op W Reply
  -- `redis.call` inside a script
  pub call_zremrangebyscore : String → ℤ → W → W
  pub call_zcard : String → W → ℕ
  pub call_zadd : String → ℕ → String → W → W
  pub call_pexpire : String → ℕ → W → W
  pub call_incr : String → W → ℕ × W
  pub call_expire : String → ℤ → W → W
  pub call_del : String → W → W

-- time.Now().UnixMilli() and uuid.New().String()
pub record Env (W : Type 0) : Type 0 where
  pub now_ms : W → ℕ
  pub new_uuid : W → String × W
