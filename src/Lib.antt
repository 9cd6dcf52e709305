-- ===== src/Lib.antt =====
-- ktauth, an authentication gateway: requests are admitted by the rule of the client's address, by a
-- rate limit, and by the session behind a bearer token; users register by an invitation token or by a
-- code that is sent by email. The state is in Redis and PostgreSQL.
--
-- Every function that changes that state takes the world `W` and gives the world after it, also beside
-- an error (Effects: a result type and operations). `W` is abstract: the servers, the libraries and
-- the clock are records of operations on it, which are parameters, and the theorems that rely on
-- Redis take the documented behaviour of its commands as hypotheses (Redis/Laws). Tests/Memory has a
-- Redis in memory that meets them.
--
-- The files and the code that they are about:
--   Prelude, Prelude/Tests, Lists, Int   shared names and lemmas; Boolean tests; signed numbers
--   Errors, Effects                      error values; functions that return (value, error)
--   Redis, Redis/Laws, Redis/Sets        the commands that go-redis sends, and their behaviour
--   Postgres, Postgres/Laws              the statements of internal/repository, and the behaviour of
--                                        those on the table users
--   Net, and the files below it          Go's net.ParseIP, net.ParseCIDR and their printers
--   IpUtils                              pkg/iputils/processip.go
--   Model                                internal/model
--   Repository/RateLimit                 internal/repository/ratelimit_repo.go: slidingWindowScript is
--     sliding_window, increaseWithExpireScript is increase_with_expire; Window holds the proofs on
--     Allow, Strikes those on Abuse
--   Repository/IpCache, Keys, Tokens, IpRepo, UserRepo, Rows
--                                        the other files of internal/repository; Keys/Lifetimes and
--     SingleUse on codes and cooldowns, Tokens/Stock, Bound and Accepted on the set of invitation tokens
--   Access, Admin, Identity              internal/service, with internal/crypto in Identity
--   Jwt                                  internal/auth/jwt.go
--   Logctx                               internal/logctx/logctx.go
--   Gin, Gin/Engine                      the context of a handler; the engine as a parameter
--   Middleware                           internal/middleware: CheckIp, RateLimit, Auth, and AccessLog
--                                        and SlogWriter, which are both in accesslog.go
--   Handlers                             internal/handler
--   Routes                               internal/router and the routes of cmd/ktauth/main.go
--   App                                  cmd/ktauth/main.go: how the parts are put together; the
--     settings are in App/Environment, connectPostgres in App/Connect, the order of main in App/Starting;
--     StaleRules and VerdictAge, with its children, on cached rules, GreyLimit on /kt/0, AdminLogin on updateAdmin
--   Db                                   internal/db
--   Slog, Strings                        log/slog's levels; what the program uses of strings and strconv,
--                                        on the code points of a text
--   Tests                                runs at concrete inputs
--
-- Numbers are natural numbers; a limit, which is a Go int, is a signed number (Prelude/Int). Times
-- are in milliseconds, but for the window of Abuse, a time.Duration in nanoseconds whose product
-- with time.Minute wraps around in int64 (App/Environment). Loops are structural recursion; that of
-- connectPostgres (App/Connect) takes fuel for its rounds, one for each second of the timeout and
-- one more, since each pause is at least a second; decimal printing takes one round of fuel for each
-- unit of the number, and a number has fewer digits than that. A context keeps the keys that the
-- program sets as fields; a handler whose last act is c.Next() or an abort is a function from
-- context and world to both, and the engine runs the handlers of a route until one aborts.
--
-- Concurrent requests are sequences of steps. The relations of reachable worlds (Reached in
-- Repository/Tokens/Bound and App/VerdictAge/Changes, the histories of RateLimit) interleave the
-- commands of several calls where a call sends more than one; other steps, of other clients or of
-- time, are worlds that leave the key at hand alone, or let it expire.
--
-- Not modelled: what the program logs, but for the access log and SlogWriter; what deferred calls
-- close when main panics; the decoding of JSON bodies (a parameter), and the servers, gin, pgx, go-
-- redis, bcrypt, golang-jwt and net/smtp behind their records. Allow reads the clock and runs its
-- script in one step, on one clock: a delay between the two, and a script that go-redis sends again
-- after a lost reply, are left out. The routes are those over a Redis that answers, also where main
-- survives a failed NewRedis (App/Starting).
pub mod Access
pub mod Admin
pub mod App
pub mod Db
pub mod Effects
pub mod Errors
pub mod Gin
pub mod Handlers
pub mod Identity
pub mod IpUtils
pub mod Jwt
pub mod Logctx
pub mod Middleware
pub mod Model
pub mod Net
pub mod Postgres
pub mod Prelude
pub mod Redis
pub mod Repository
pub mod Routes
pub mod Slog
pub mod Strings
pub mod Tests
