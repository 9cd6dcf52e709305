-- ===== src/Repository/RateLimit/Strikes.antt =====
-- internal/repository/ratelimit_repo.go, Abuse: the counter of refused requests of one address.
pub mod History
pub mod NoBan
use Prim.Native.String.{◌++◌}
use native.Mathlib.Nat.{le_refl, le_of_eq}
use ktauth.Prelude.{
  ℕ, suc, ◌+◌, ◌*◌, ◌/◌, ◌≤◌, ◌<◌, ℤ, pos, negsuc, pos_part, is_minus_one, eq_int, String, Bool,
  true, false, ◌==◌, ltb, Bool-cases, ◌≡◌, ◌⊎◌, refl, ap, ◌∙◌, inl, inr, none, some, Option, arith,
  if◌then◌else◌,
}
use ktauth.Errors.{Error}
use ktauth.Effects.{Result, ok, err, Op}
use ktauth.Redis.{Redis, Env}
use ktauth.Redis.Laws.{
  View, Value, number, text, members, zset, incremented, IsCounter, counter, EvalLaws, CounterLaws,
}
use ktauth.Repository.RateLimit.{increase_with_expire, first_expire, script_result, abuse}

abbrev pub abuse_key : String → String
abuse_key ip = "abuse:429:" ++ ip

incremented_self :
    (o : Option Value) → IsCounter o → incremented o o ≡ some (number (counter o + 1))
incremented_self none h = refl
incremented_self (some (number n)) h = refl
incremented_self (some (text s)) h = absurd h
incremented_self (some (members s)) h = absurd h
incremented_self (some (zset s)) h = absurd h

module _ {W : Type 0} (r : Redis W) (env : Env W) (v : View W) where
  open v use {live, clock}

  pub record Laws : Type 0 where
    pub evals : EvalLaws r env v
    pub counters : CounterLaws r env v

module _ {W : Type 0} {r : Redis W} {env : Env W} {v : View W} (l : Laws r env v) where
  open v use {live, clock}
  open l.counters use {
    incr-clock, incr-eq, incr-live, expire-clock, expire-live, del-clock, del-live,
  }

  module _ (key : String) (ttl : ℤ) (n : ℕ) (w : W) (ready : IsCounter (live w (clock w) key)) where
    abbrev old : ℕ
    old = counter (live w (clock w) key)

    bumped : W
    bumped = (r.call_incr key w).1

    bumped-live : live bumped (clock w) key ≡ some (number (old + 1))
    unfolding bumped
    bumped-live = incr-live key w (clock w) (le_refl _) ready ∙ incremented_self _ ready

    bumped-clock : clock bumped ≡ clock w
    unfolding bumped
    bumped-clock = incr-clock key w

    timed : W
    timed = first_expire r key ttl (old + 1) bumped

    timed-clock : clock timed ≡ clock w
    unfolding timed first_expire
    timed-clock = elim (Bool-cases (old + 1 == 1)) [
      | inl first ↦ rw first (expire-clock key ttl bumped ∙ bumped-clock)
      | inr later ↦ rw later bumped-clock
    ]

    timed-live : 0 < pos_part ttl → live timed (clock w) key ≡ some (number (old + 1))
    unfolding timed first_expire
    timed-live h = elim (Bool-cases (old + 1 == 1)) [
      | inl first ↦
          let e =
            rw bumped-clock at
              (expire-live key ttl bumped (clock w) (rw bumped-clock (le_refl _))) in
          let soon : ltb (clock w) (clock w + pos_part ttl * 1000) ≡ true = ground arith in
          rw first (rw (soon, bumped-live) at e)
      | inr later ↦ rw later bumped-live
    ]

    -- One run of the script with a positive ttl: the count goes up by one, or the key is deleted.
    pub increase-count :
        0 < pos_part ttl
        → let out = increase_with_expire r key ttl (pos n) w in
          (out.0 ≡ (if old + 1 == n then negsuc 0 else pos (old + 1)))
          × (clock out.1 ≡ clock w)
          × (live out.1 (clock w) key ≡ (if old + 1 == n then none else some (number (old + 1))))
    unfolding increase_with_expire bumped timed
    increase-count h = elim (Bool-cases (old + 1 == n)) [
      | inl full ↦
          rw (incr-eq key w ready, full)
            (
              refl,
              del-clock key timed ∙ timed-clock,
              del-live key timed (clock w) (le_of_eq timed-clock),
            )
      | inr more ↦ rw (incr-eq key w ready, more) (refl, timed-clock, timed-live h)
    ]
