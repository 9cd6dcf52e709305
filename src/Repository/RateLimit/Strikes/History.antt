-- ===== src/Repository/RateLimit/Strikes/History.antt =====
-- internal/repository/ratelimit_repo.go, Abuse: histories of refused requests of one address.
use ktauth.Prelude.{
  ℕ, suc, ◌+◌, ◌*◌, ◌≤◌, ◌<◌, ℤ, pos, negsuc, pos_part, is_minus_one, String, Bool, ◌==◌,
  Bool-cases, ◌≡◌, ◌≢◌, ◌⊎◌, refl, ap, subst, inl, inr, none, some, arith, if◌then◌else◌,
}
use ktauth.Errors.{Error}
use ktauth.Effects.{Result, ok, err, on}
use ktauth.Redis.{Redis, Env}
use ktauth.Redis.Laws.{View, number, IsCounter, counter}
use ktauth.Repository.RateLimit.{increase_with_expire, script_result, seconds, abuse}
use ktauth.Repository.RateLimit.Strikes.{abuse_key, Laws, increase-count}

-- The count of refused requests that Redis holds for the address now.
abbrev pub strikes : {W : Type 0} → View W → String → W → ℕ
strikes v ip w = counter (v.live w (v.clock w) (abuse_key ip))

module _ {W : Type 0} (r : Redis W) (env : Env W) (v : View W) (ip : String) (window : ℤ)
    (limit : ℤ) where
  open v use {live, clock}

  -- Worlds that the calls of Abuse for one address reach: the number of calls, of those that
  -- answered true (each is a ban), and of gaps: a call without an answer, or an expired counter.
  pub data History : W → ℕ → ℕ → ℕ → Type 0 where
    start : {w : W} → live w (clock w) (abuse_key ip) ≡ none → History w 0 0 0
    answered :
        {w w' : W} {calls bans gaps : ℕ} (ban : Bool)
        → History w calls bans gaps
        → abuse r ip limit window w ≡ (ok ban, w')
        → History w' (suc calls) (if ban then suc bans else bans) gaps
    failed :
        {w w' : W} {calls bans gaps : ℕ} (e : Error)
        → History w calls bans gaps
        → abuse r ip limit window w ≡ (err e, w')
        → History w' (suc calls) bans (suc gaps)
    -- Other steps, while the counter of the address stays, or in which it expires.
    kept :
        {w w' : W} {calls bans gaps : ℕ}
        → History w calls bans gaps
        → live w' (clock w') (abuse_key ip) ≡ live w (clock w) (abuse_key ip)
        → History w' calls bans gaps
    lapsed :
        {w w' : W} {calls bans gaps : ℕ}
        → History w calls bans gaps
        → live w' (clock w') (abuse_key ip) ≡ none
        → History w' calls bans (suc gaps)

module _ {W : Type 0} (r : Redis W) (env : Env W) (v : View W) (ip : String) (window : ℤ)
    (n : ℕ) where
  open v use {live, clock}

  -- A ban takes n strikes; with no gap there is nothing else to strikes.
  pub record Inv (w : W) (calls bans gaps : ℕ) : Type 0 where
    pub ready : IsCounter (live w (clock w) (abuse_key ip))
    pub below : strikes v ip w < n
    pub counted : bans * n + strikes v ip w ≤ calls
    pub exact : gaps ≡ 0 → bans * n + strikes v ip w ≡ calls

module _ {W : Type 0} {r : Redis W} {env : Env W} {v : View W} (l : Laws r env v) where
  open v use {live, clock}

  module _ (ip : String) (window : ℤ) (n : ℕ) (long : 0 < pos_part (seconds window))
      (some_limit : 0 < n) where
    abbrev Holds : W → ℕ → ℕ → ℕ → Type 0
    Holds = Inv r env v ip window n

    abbrev script : W → ℤ × W
    script = increase_with_expire r (abuse_key ip) (seconds window) (pos n)

    abbrev full : W → Bool
    full w = strikes v ip w + 1 == n

    script-strikes :
        (w : W)
        → IsCounter (live w (clock w) (abuse_key ip))
        → ((script w).0 ≡ (if full w then negsuc 0 else pos (strikes v ip w + 1)))
          × (live (script w).1 (clock (script w).1) (abuse_key ip)
              ≡ (if full w then none else some (number (strikes v ip w + 1))))
    script-strikes w ready =
        let (code, same_clock, after) =
          increase-count l (abuse_key ip) (seconds window) n w ready long in
        (code, rw same_clock after)

    -- A run of the script is one more strike, and a ban clears them.
    script-Inv :
        {w : W} {calls bans gaps : ℕ}
        → Holds w calls bans gaps
        → Holds (script w).1 (suc calls) (if full w then suc bans else bans) gaps
    script-Inv {w} {calls} {bans} i =
        let (code, after) = script-strikes w i.ready in
        elim (Bool-cases (full w)) [
          | inl last ↦
              let gone : live (script w).1 (clock (script w).1) (abuse_key ip) ≡ none =
                rw last at after in
              let none_left : strikes v ip (script w).1 ≡ 0 = ap counter gone in
              let all_n : strikes v ip w + 1 ≡ n = ground arith in
              rw last (record {
                ready = rw gone tt;
                below = omega arith;
                counted = omega (arith, i.counted);
                exact = λ g. omega (arith, i.exact g);
              })
          | inr more ↦
              let one_more : live (script w).1 (clock (script w).1) (abuse_key ip)
                  ≡ some (number (strikes v ip w + 1)) =
                rw more at after in
              let next : strikes v ip (script w).1 ≡ strikes v ip w + 1 = ap counter one_more in
              let not_all : strikes v ip w + 1 ≢ n = λ e. ground arith in
              rw more (record {
                ready = rw one_more tt;
                below = omega (arith, i.below);
                counted = omega (arith, i.counted);
                exact = λ g. omega (arith, i.exact g);
              })
        ]

    -- More calls than strikes: the invariant with a gap.
    gap-Inv :
        {w w' : W} {calls bans gaps : ℕ} (calls' : ℕ)
        → Holds w calls bans gaps
        → calls ≤ calls'
        → (live w' (clock w') (abuse_key ip) ≡ live w (clock w) (abuse_key ip))
          ⊎ (live w' (clock w') (abuse_key ip) ≡ none)
        → Holds w' calls' bans (suc gaps)
    gap-Inv {bans = bans} calls' i more (inl same) =
        let e = ap counter same in
        record {
          ready = rw same i.ready;
          below = omega (arith, i.below);
          counted = omega (arith, i.counted);
          exact = λ g. absurd (omega arith);
        }
    gap-Inv {bans = bans} calls' i more (inr gone) =
        let e = ap counter gone in
        record {
          ready = rw gone tt;
          below = omega arith;
          counted = omega (arith, i.counted);
          exact = λ g. absurd (omega arith);
        }

    -- A run whose reply is lost: a ban that nobody hears of clears the strikes all the same.
    lost-Inv :
        {w : W} {calls bans gaps : ℕ}
        → Holds w calls bans gaps
        → Holds (script w).1 (suc calls) bans (suc gaps)
    lost-Inv {w} {calls} {bans} i =
        let (code, after) = script-strikes w i.ready in
        elim (Bool-cases (full w)) [
          | inl last ↦ gap-Inv (suc calls) i (omega arith) (inr (rw last at after))
          | inr more ↦
              let one_more = rw more at after in
              let next : strikes v ip (script w).1 ≡ strikes v ip w + 1 = ap counter one_more in
              let not_all : strikes v ip w + 1 ≢ n = λ e. ground arith in
              record {
                ready = rw one_more tt;
                below = omega (arith, i.below);
                counted = omega (arith, i.counted);
                exact = λ g. absurd (omega arith);
              }
        ]

    abbrev After : ℕ → ℕ → ℕ → Result Bool × W → Type 0
    After calls bans gaps (res, w') =
        on res (λ e. Holds w' (suc calls) bans (suc gaps))
          (λ ban. Holds w' (suc calls) (if ban then suc bans else bans) gaps)

    is_ban :
        (w : W) → IsCounter (live w (clock w) (abuse_key ip)) → is_minus_one (script w).0 ≡ full w
    is_ban w ready =
        let code = (script-strikes w ready).0 in
        elim (Bool-cases (full w)) [
          | inl last ↦ rw (code, last) refl
          | inr more ↦ rw (code, more) refl
        ]

    abuse-Inv :
        {w : W} {calls bans gaps : ℕ}
        → Holds w calls bans gaps
        → After calls bans gaps (abuse r ip (pos n) window w)
    unfolding abuse script_result
    abuse-Inv {w} {calls} {bans} {gaps} i = elim (l.evals.eval-cases script w) [
      | inl answer ↦ rw (answer, is_ban w i.ready) (script-Inv i)
      | inr (e, lost, inl unrun) ↦ rw (lost, unrun) (gap-Inv (suc calls) i (omega arith) (inl refl))
      | inr (e, lost, inr ran) ↦ rw (lost, ran) (lost-Inv i)
    ]

    History-Inv :
        {w : W} {calls bans gaps : ℕ}
        → History r env v ip window (pos n) w calls bans gaps
        → Holds w calls bans gaps
    History-Inv (start missing) =
        let e = ap counter missing in
        record {
          ready = rw missing tt;
          below = omega arith;
          counted = omega arith;
          exact = λ g. omega arith;
        }
    History-Inv (answered {calls = calls} {bans = bans} {gaps = gaps} ban before e) =
        subst (After calls bans gaps) e (abuse-Inv (History-Inv before))
    History-Inv (failed {calls = calls} {bans = bans} {gaps = gaps} x before e) =
        subst (After calls bans gaps) e (abuse-Inv (History-Inv before))
    History-Inv (kept before same) =
        let i = History-Inv before in
        let e = ap counter same in
        record {
          ready = rw same i.ready;
          below = omega (arith, i.below);
          counted = omega (arith, i.counted);
          exact = λ g. omega (arith, i.exact g);
        }
    History-Inv (lapsed {calls = calls} before gone) =
        gap-Inv calls (History-Inv before) (omega arith) (inr gone)

    -- With a limit n of at least 1 and a window of at least a second, every ban of an address
    -- takes n refused requests of its own, whatever expires or fails; if nothing does, the bans
    -- are exactly the whole groups of n refused requests; given the documented behaviour of the
    -- Redis commands.
    pub abuse_bans :
        {w : W} {calls bans gaps : ℕ}
        → History r env v ip window (pos n) w calls bans gaps
        → (bans * n ≤ calls) × (gaps ≡ 0 → (bans * n ≤ calls) × (calls < suc bans * n))
    abuse_bans {bans = bans} history =
        let i = History-Inv history in
        (
          omega (arith, i.counted),
          λ g. (omega (arith, i.counted), omega (arith, i.exact g, i.below)),
        )
