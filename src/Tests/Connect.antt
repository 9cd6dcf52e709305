-- ===== src/Tests/Connect.antt =====
-- Connecting to a server that is down for 5 seconds, with a timeout of 30 seconds.
use ktauth.Prelude.{ℕ, ◌+◌, String, Bool, true, false, some, leb, ◌≡◌, refl, arith, if◌then◌else◌}
use ktauth.Errors.{foreign}
use ktauth.Effects.{Result, ok, err}
use ktauth.App.Connect.{Connecting, connect_postgres}
use ktauth.App.Connect.Ending.{WaitLaws, Ended, connect_postgres-Ended}

-- The world is the time in milliseconds; an attempt takes 10 ms.
abbrev attempt : ℕ → Result String × ℕ
attempt t = ((if leb 5000 t then ok "pool" else err (foreign "connection refused")), t + 10)

abbrev pause : ℕ → ℕ → Bool × ℕ
pause b t = if leb 30000 t then (true, t) else (false, t + b)

abbrev server : Connecting ℕ String
server = record { new_postgres = attempt; wait = pause }

-- After pauses of 1, 2 and 4 seconds.
reached : connect_postgres server 31 0 ≡ some (ok "pool", 7040)
unfolding connect_postgres
reached = refl

server-WaitLaws : WaitLaws server 30000
server-WaitLaws = record {
  clock = λ t. t;
  attempt-later = λ t. omega arith;
  wait-done = λ b t h late. ground arith;
  wait-after = λ b t waited. ground arith;
}

connect_postgres-Ended_example :
    (out : Result String × ℕ) × (connect_postgres server 31 0 ≡ some out) × Ended server out
connect_postgres-Ended_example = connect_postgres-Ended server-WaitLaws 30 0 (omega arith)
