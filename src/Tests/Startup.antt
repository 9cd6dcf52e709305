-- ===== src/Tests/Startup.antt =====
-- internal/db and the start of cmd/ktauth/main.go with a PostgreSQL that answers from the third second
-- on.
use Prim.Native.String.{String}
use ktauth.Prelude.{
  ℕ, ◌+◌, ◌-◌, Bool, true, false, Option, none, some, leb, str_eq, ◌≡◌, refl, ap, sym, Bool-cases,
  inl, inr, arith, if◌then◌else◌,
}
use ktauth.Errors.{foreign}
use ktauth.Effects.{ok, err}
use ktauth.Repository.UserRepo
use ktauth.Db.{Config, config, Pgxpool, dsn, configured, checked_pool, new_redis, new_postgres}
use native.Mathlib.Nat.{le_of_eq}
use ktauth.Db.Pools.{PoolLaws, connecting, connect_postgres-Balanced}
use ktauth.App.{Packages, update_admin}
use ktauth.App.Connect.{connect_postgres}
use ktauth.App.Connect.Ending.{WaitLaws}
use ktauth.App.Starting
use ktauth.App.Starting.{Machine, Stage, exited, panicked, listening, settings, start}
use ktauth.App.Starting.Order.{Started, start-Started}
use ktauth.Tests.Memory.{Memory}
use ktauth.Tests.Rules.{pg}
use ktauth.Tests.Routes.{world}
use ktauth.Tests.App.{packages}

-- Pools are numbers; the world is how many are open, and how often a server was asked.
abbrev pools : Pgxpool (ℕ × ℕ) String ℕ
pools = record {
  parse_config = λ text. ok text;
  new_with_config = λ cfg w. (ok 7, (w.0 + 1, w.1));
  ping =
      λ pool w. ((if leb 2 w.1 then ok tt else err (foreign "connection refused")), (w.0, w.1 + 1));
  close = λ pool w. (w.0 - 1, w.1);
}

pool_laws : PoolLaws pools
pool_laws = record {
  open_pools = λ w. w.0;
  new-ok = λ cfg pool w w' e. cc;
  new-err = λ cfg x w w' e. absurd (cc);
  ping-open = λ pool w. refl;
  close-open = λ pool w n h. omega arith;
}

abbrev getenv : String → String
getenv name = if str_eq name "POSTGRES_HOST" then "db" else ""

addressed :
    dsn (configured getenv config) ≡ "postgres://ktauth:ktauth@db:5432/ktauth?sslmode=disable"
unfolding dsn configured
addressed = refl

abbrev pause : ℕ → Config × (ℕ × ℕ) → Bool × (Config × (ℕ × ℕ))
pause b s = (false, s)

third_attempt :
    connect_postgres (connecting pool_laws getenv pause (λ b s. refl)) 31 (config, (0, 0))
    ≡ some (ok 7, (configured getenv config, (1, 3)))
unfolding connect_postgres new_postgres configured dsn
third_attempt = refl

connect_postgres-Balanced_example : ◌≡◌ {A = ℕ} 1 (0 + 1)
unfolding connect_postgres new_postgres pool_laws
connect_postgres-Balanced_example =
    connect_postgres-Balanced pool_laws getenv pause (λ b s. refl) 31 (config, (0, 0))
      (configured getenv config, (1, 3)) (ok 7) third_attempt

abbrev server : Pgxpool Memory String ℕ
server = record {
  parse_config = λ text. ok text;
  new_with_config = λ cfg w. (ok 7, w);
  ping = λ pool w. ((if leb 103000 w.clock then ok tt else err (foreign "connection refused")), w);
  close = λ pool w. w;
}

abbrev later : ℕ → Memory → Memory
later b w = record w { clock = w.clock + b }

abbrev machine : Machine Memory String ℕ Unit
machine = record {
  getenv = getenv;
  rdb = record { new_client = λ addr w. (tt, w); ping = λ client w. (ok tt, w) };
  pgx = server;
  wait = λ b s. (if leb 130000 s.1.clock then (true, s) else (false, (s.0, later b s.1)));
  defer_close_nil = err (foreign "nil pointer dereference");
  set_trusted_proxies = λ proxies. ok tt;
}

abbrev updating : Packages Memory
updating = record packages { postgres = record pg { exec = λ statement w. ((1, none), w) } }

server-still : (w : Memory) → (checked_pool server 7 w).1 ≡ w
unfolding checked_pool
server-still w = elim (Bool-cases (leb 103000 w.clock)) [
  | inl up ↦ rw up refl
  | inr down ↦ rw down refl
]

machine-WaitLaws : WaitLaws (Starting.connecting machine updating) 130000
unfolding new_postgres
machine-WaitLaws = record {
  clock = λ s. s.1.clock;
  attempt-later = λ s. le_of_eq (ap (λ (w : Memory). w.clock) (sym (server-still s.1)));
  wait-done = λ b s h late. ground arith;
  wait-after = λ b s waited. ground arith;
}

abbrev stage_name : Option (Stage Memory × (Config × Memory)) → String
stage_name none = "out of rounds"
stage_name (some (exited e, s)) = "exited"
stage_name (some (panicked e, s)) = "panicked"
stage_name (some (listening l, s)) = "listening"

stages :
    (stage_name (start machine updating 31 (config, world)) ≡ "listening")
    × (stage_name (start machine packages 31 (config, world)) ≡ "panicked")
unfolding start connect_postgres new_postgres new_redis update_admin UserRepo.update
stages = (refl, refl)

start-Started_example :
    (out : Stage Memory × (Config × Memory)) × (start machine updating 31 (config, world)
      ≡ some out)
    × Started machine updating config world out.0
unfolding new_redis machine-WaitLaws
start-Started_example = start-Started machine updating machine-WaitLaws config world (omega arith)
