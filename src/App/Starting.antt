-- ===== src/App/Starting.antt =====
-- cmd/ktauth/main.go, main: what it does, in order, until it listens.
pub mod Order
use Prim.Native.String.{String}
use ktauth.Prelude.{ℕ, Bool, Option, none, some, List}
use ktauth.Errors.{Error}
use ktauth.Effects.{Result, on}
use ktauth.Strings.{Text}
use ktauth.Db.{Config, Pgxpool, GoRedis, new_redis, new_postgres}
use ktauth.Routes.{Route}
use ktauth.App.{Packages, Settings, update_admin, routes}
use ktauth.App.Connect.{Connecting, connect_postgres}
use ktauth.App.Environment.{load_settings, trusted_proxies}

-- The environment, the connections, and two calls of packages: `defer redis.Close()`, which main makes
-- of a nil client too where NewRedis failed (the error is a panic), and gin's SetTrustedProxies.
pub record Machine (W PoolConfig Pool Client : Type 0) : Type 0 where
  pub getenv : String → String
  pub rdb : GoRedis W Client
  pub pgx : Pgxpool W PoolConfig Pool
  pub wait : ℕ → Config × W → Bool × (Config × W)
  pub defer_close_nil : Result (Unit {0})
  pub set_trusted_proxies : List Text → Result (Unit {0})

-- os.Exit(1), a panic, or srv.ListenAndServe() for the routes. (What deferred calls close at a panic is
-- left out.)
pub data Stage (W : Type 0) : Type 0 where
  exited panicked : Error → Stage W
  listening : List (Route W) → Stage W

module _ {W PoolConfig Pool Client : Type 0} (m : Machine W PoolConfig Pool Client)
    (p : Packages W) where
  abbrev pub settings : Settings
  settings = load_settings m.getenv

  abbrev pub connecting : Connecting (Config × W) Pool
  connecting = record { new_postgres = new_postgres m.pgx m.getenv; wait = m.wait }

  -- Behind both connections
  pub serve : W → Stage W × W
  serve w =
      let (updated, w₁) = update_admin p settings w in
      on updated (λ e. (panicked e, w₁))
        (λ u.
          on (m.set_trusted_proxies (trusted_proxies (m.getenv "TRUSTED_PROXIES")))
            (λ e. (panicked e, w₁)) (λ u. (listening (routes p settings), w₁)))

  pub serve_pool : Result Pool → Config × W → Stage W × (Config × W)
  unfolding serve
  serve_pool pool (c, w) =
      on pool (λ e. (exited e, (c, w))) (λ u. let (stage, w₁) = serve w in (stage, (c, w₁)))

  -- From connectPostgres on, with its rounds
  pub start_postgres : ℕ → Config × W → Option (Stage W × (Config × W))
  unfolding serve_pool
  start_postgres rounds s = elim (connect_postgres connecting rounds s) [
    | none ↦ none
    | some (pool, s₁) ↦ some (serve_pool pool s₁)
  ]

  unfoldable pub start : ℕ → Config × W → Option (Stage W × (Config × W))
  unfolding start_postgres
  start rounds (c, w) =
      let (client, w₁) = new_redis m.rdb m.getenv w in
      let rest = start_postgres rounds (c, w₁) in
      on client (λ e. on m.defer_close_nil (λ x. some (panicked x, (c, w₁))) (λ u. rest))
        (λ r. rest)
