-- ===== src/Db.antt =====
-- internal/db/postgres.go and internal/db/redis.go: the settings of the connections, over pgxpool and
-- go-redis as parameters.
pub mod Pools
use Prim.Native.String.{String, ◌++◌}
use ktauth.Prelude.{str_eq, if◌then◌else◌}
use ktauth.Effects.{Result, ok, err, on, Op}

pub record Config : Type 0 where
  pub user : String
  pub passwd : String
  pub host : String
  pub port : String
  pub db_name : String

-- `config`, a variable of the package, at the start
abbrev pub config : Config
config = record {
  user = "ktauth";
  passwd = "ktauth";
  host = "127.0.0.1";
  port = "5432";
  db_name = "ktauth";
}

-- pgxpool: the client that it makes of a configuration opens connections until it is closed.
pub record Pgxpool (W PoolConfig Pool : Type 0) : Type 0 where
  pub parse_config : String → Result PoolConfig
  pub new_with_config : PoolConfig → Op W Pool
  pub ping : Pool → Op W (Unit {0})
  pub close : Pool → W → W

-- `if value := os.Getenv(name); value != "" { field = value }`
abbrev pub or_kept : String → String → String
or_kept value old = if str_eq value "" then old else value

unfoldable pub configured : (String → String) → Config → Config
configured getenv c = record c {
  host = or_kept (getenv "POSTGRES_HOST") c.host;
  port = or_kept (getenv "POSTGRES_PORT") c.port;
}

unfoldable pub dsn : Config → String
dsn c =
    "postgres://"
    ++ (c.user
        ++ (":"
            ++ (c.passwd
                ++ ("@"
                    ++ (c.host
                        ++ (":" ++ (c.port ++ ("/" ++ (c.db_name ++ "?sslmode=disable")))))))))

module _ {W PoolConfig Pool : Type 0} (pgx : Pgxpool W PoolConfig Pool) where
  -- `if err := pool.Ping(…); err != nil { pool.Close(); … }`
  unfoldable pub checked_pool : Pool → Op W Pool
  checked_pool pool w =
      let (pinged, w₁) = pgx.ping pool w in
      on pinged (λ e. (err e, pgx.close pool w₁)) (λ u. (ok pool, w₁))

  unfoldable pub open_pool : String → Op W Pool
  unfolding checked_pool
  open_pool text w =
      on (pgx.parse_config text) (λ e. (err e, w))
        (λ cfg.
          let (pool, w₁) = pgx.new_with_config cfg w in
          on pool (λ e. (err e, w₁)) (λ p. checked_pool p w₁))

  -- NewPostgres; the variable `config` is part of the state.
  unfoldable pub new_postgres : (String → String) → Op (Config × W) Pool
  unfolding configured dsn open_pool
  new_postgres getenv (c, w) =
      let c₁ = configured getenv c in let (pool, w₁) = open_pool (dsn c₁) w in (pool, (c₁, w₁))

-- go-redis: a client for an address, and PING
pub record GoRedis (W Client : Type 0) : Type 0 where
  pub new_client : String → W → Client × W
  pub ping : Client → Op W (Unit {0})

-- NewRedis; an error comes with a nil client.
unfoldable pub new_redis : {W Client : Type 0} → GoRedis W Client → (String → String) → Op W Client
new_redis rdb getenv w =
    let (client, w₁) = rdb.new_client (or_kept (getenv "REDIS_HOST") "127.0.0.1" ++ ":6379") w in
    let (pinged, w₂) = rdb.ping client w₁ in (on pinged (λ e. err e) (λ u. ok client), w₂)
