-- ===== src/Tests/RateLimit.antt =====
-- The rate limits of internal/repository/ratelimit_repo.go at concrete histories.
use ktauth.Prelude.{
  ℕ, ◌*◌, ◌<◌, ◌≤◌, pos, negsuc, String, Bool, true, false, none, [], ◌∷◌, ◌≡◌, refl, arith, lt_int,
}
use ktauth.Effects.{Result, ok}
use ktauth.Redis.Laws.{entries}
use ktauth.Repository.RateLimit.{seconds, allow, abuse}
use ktauth.Repository.RateLimit.Window.Counts.{within, recent_entries}
use ktauth.Repository.RateLimit.Window.Script
use ktauth.Repository.RateLimit.Window.Bound
use ktauth.Repository.RateLimit.Window.Bound.{
  Run, start, call, window_bound, allow-decides, rate_key,
}
use ktauth.Repository.RateLimit.Strikes
use ktauth.Repository.RateLimit.Strikes.History.{History, abuse_bans}
use ktauth.Repository.RateLimit.Strikes.NoBan.{no_bans}
use ktauth.Tests.Memory.{Memory, memory, env, view, peek}
use ktauth.Tests.Memory.Laws.{
  memory-TimeLaws, memory-EvalLaws, memory-ZsetLaws, memory-ExpireLaws, memory-CounterLaws,
}

pub window_laws : Script.Laws memory env view
window_laws = record {
  time = memory-TimeLaws;
  evals = memory-EvalLaws;
  zsets = memory-ZsetLaws;
  expires = memory-ExpireLaws;
}

strike_laws : Strikes.Laws memory env view
strike_laws = record { evals = memory-EvalLaws; counters = memory-CounterLaws }

abbrev empty : Memory
empty = record { slots = λ k. none; clock = 100000; ids = "a" ∷ "b" ∷ "c" ∷ [] }

abbrev ip : String
ip = "1.2.3.4/32"

-- A limit of two requests in 1000 ms.
abbrev ask : Memory → Result Bool × Memory
ask = allow memory env ip (pos 2) 1000

abbrev wait : ℕ → Memory → Memory
wait t w = record w { clock = t }

abbrev first : Memory
first = (ask empty).1

abbrev second : Memory
second = (ask (wait 100400 first)).1

two_and_a_refusal :
    ((ask empty).0 ≡ ok true)
    × ((ask (wait 100400 first)).0 ≡ ok true)
    × ((ask second).0 ≡ ok false)
    × ((ask (wait 101000 second)).0 ≡ ok true)
unfolding allow
two_and_a_refusal = (refl, refl, refl, refl)

one_request : Run memory env view ip 1000 (pos 2) first (100000 ∷ [])
unfolding allow
one_request = call {w = empty} {times = []} (ok true) (start {w = empty} (λ t h. refl)) refl refl

window_bound_example : within 1000 100500 (100000 ∷ []) ≤ 2
window_bound_example = window_bound window_laws ip 1000 (pos 2) 100500 one_request

first-IsFresh : Bound.IsFresh memory env view ip 1000 (pos 2) first
unfolding allow
first-IsFresh = refl

answers : allow memory env ip (pos 2) 1000 first ≡ (ok true, (ask first).1)
unfolding allow
answers = refl

allow-decides_example :
    true ≡ lt_int (recent_entries 1000 100000 (entries (peek first 100000 (rate_key ip)))) (pos 2)
unfolding allow
allow-decides_example =
    allow-decides window_laws ip 1000 (pos 2) true one_request first-IsFresh answers

-- Three strikes for a ban.
abbrev strike : Memory → Result Bool × Memory
strike = abuse memory ip (pos 3) (pos 60000000000)

third_is_a_ban :
    let w = (strike (strike empty).1).1 in
    ((strike empty).0 ≡ ok false) × ((strike w).0 ≡ ok true) × ((strike (strike w).1).0 ≡ ok false)
unfolding abuse
third_is_a_ban = (refl, refl, refl)

one_strike : History memory env view ip (pos 60000000000) (pos 3) (strike empty).1 1 0 0
unfolding abuse
one_strike = History.answered {w = empty} {bans = 0} false (History.start {w = empty} refl) refl

abuse_bans_example : (0 * 3 ≤ 1) × (◌≡◌ {A = ℕ} 0 0 → (0 * 3 ≤ 1) × (1 < 1 * 3))
unfolding seconds
abuse_bans_example =
    abuse_bans strike_laws ip (pos 60000000000) 3 (omega arith) (omega arith) one_strike

-- A window of no length, and a limit of 3.
abbrev unpunished : Memory → Result Bool × Memory
unpunished = abuse memory ip (pos 3) (pos 0)

never_a_ban :
    let w = (unpunished (unpunished (unpunished empty).1).1).1 in
    ((unpunished empty).0 ≡ ok false) × ((unpunished w).0 ≡ ok false)
unfolding abuse seconds
never_a_ban = (refl, refl)

one_refusal : History memory env view ip (pos 0) (negsuc 0) (unpunished empty).1 1 0 0
unfolding abuse seconds
one_refusal = History.answered {w = empty} {bans = 0} false (History.start {w = empty} refl) refl

no_bans_example : ◌≡◌ {A = ℕ} 0 0
unfolding seconds
no_bans_example = no_bans strike_laws ip (pos 0) (negsuc 0) refl (λ e. absurd (cc)) one_refusal
