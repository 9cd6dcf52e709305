-- ===== src/Repository/RateLimit/Strikes/NoBan.antt =====
-- internal/repository/ratelimit_repo.go, Abuse: a window without a whole second, as ABUSEWINDOW=0 or a
-- negative ABUSEWINDOW gives.
use ktauth.Prelude.{
  ℕ, suc, ◌+◌, ◌*◌, ℤ, pos, negsuc, pos_part, String, Bool, false, ◌≡◌, ◌≢◌, refl, subst, ap,
  eq_int, inl, inr, none, arith, if◌then◌else◌, ltb, ◌∙◌,
}
use ktauth.Effects.{Result, on}
use ktauth.Redis.{Redis, Env}
use ktauth.Redis.Laws.{View}
use ktauth.Repository.RateLimit.{increase_with_expire, first_expire, script_result, seconds, abuse}
use ktauth.Repository.RateLimit.Strikes.{abuse_key, Laws}
use ktauth.Repository.RateLimit.Strikes.History.{History, start, answered, failed, kept, lapsed}

not_one : (limit : ℤ) → limit ≢ pos 1 → eq_int 1 limit ≡ false
not_one (pos n) no_single = let other : n ≢ 1 = λ e. no_single (ap pos e) in ground arith
not_one (negsuc n) no_single = refl

module _ {W : Type 0} {r : Redis W} {env : Env W} {v : View W} (l : Laws r env v) where
  open v use {live, clock}
  open l.counters use {incr-clock, incr-eq, expire-clock, expire-live}

  module _ (ip : String) (window limit : ℤ) (short : pos_part (seconds window) ≡ 0)
      (no_single : limit ≢ pos 1) where
    abbrev IsClear : W → Type 0
    IsClear w = live w (clock w) (abuse_key ip) ≡ none

    abbrev script : W → ℤ × W
    script = increase_with_expire r (abuse_key ip) (seconds window) limit

    -- The key that the script creates is deleted by its EXPIRE.
    script-IsClear : (w : W) → IsClear w → ((script w).0 ≡ pos 1) × IsClear (script w).1
    unfolding increase_with_expire first_expire
    script-IsClear w clear =
        let first : (r.call_incr (abuse_key ip) w).0 ≡ 1 =
          rw clear at (incr-eq (abuse_key ip) w (rw clear tt)) in
        let below : eq_int 1 limit ≡ false = not_one limit no_single in
        let bumped = (r.call_incr (abuse_key ip) w).1 in
        let now = clock (r.call_expire (abuse_key ip) (seconds window) bumped) in
        let time = expire-clock (abuse_key ip) (seconds window) bumped in
        let over : ltb now (clock bumped + pos_part (seconds window) * 1000) ≡ false =
          ground (arith, short, time) in
        let gone = expire-live (abuse_key ip) (seconds window) bumped now (omega (arith, time)) in
        rw (first, below) (refl, rw over at gone)

    abbrev After : ℕ → Result Bool × W → Type 0
    After bans (res, w') =
        IsClear w' × on res (λ e. Unit {0}) (λ ban. (if ban then suc bans else bans) ≡ bans)

    abuse-After : (w : W) (bans : ℕ) → IsClear w → After bans (abuse r ip limit window w)
    unfolding abuse script_result
    abuse-After w bans clear =
        let (code, after) = script-IsClear w clear in
        elim (l.evals.eval-cases script w) [
          | inl answer ↦ rw (answer, code) (after, refl)
          | inr (e, lost, inl unrun) ↦ rw (lost, unrun) (clear, tt)
          | inr (e, lost, inr ran) ↦ rw (lost, ran) (after, tt)
        ]

    History-IsClear :
        {w : W} {calls bans gaps : ℕ}
        → History r env v ip window limit w calls bans gaps
        → IsClear w × (bans ≡ 0)
    History-IsClear (start missing) = (missing, refl)
    History-IsClear (answered {bans = bans} ban before e) =
        let (clear, no_ban) = History-IsClear before in
        let (clear', same) = subst (After bans) e (abuse-After _ bans clear) in
        (clear', same ∙ no_ban)
    History-IsClear (failed {bans = bans} x before e) =
        let (clear, no_ban) = History-IsClear before in
        ((subst (After bans) e (abuse-After _ bans clear)).0, no_ban)
    History-IsClear (kept before same) =
        let (clear, no_ban) = History-IsClear before in (same ∙ clear, no_ban)
    History-IsClear (lapsed before gone) = (gone, (History-IsClear before).1)

    -- With a window of less than a second, such as one that is not positive, and any limit other
    -- than 1, a negative one included, Abuse bans no address, however many of its requests are
    -- refused; given the documented behaviour of the Redis commands.
    pub no_bans :
        {w : W} {calls bans gaps : ℕ} → History r env v ip window limit w calls bans gaps → bans ≡ 0
    no_bans history = (History-IsClear history).1
