-- ===== src/Repository/RateLimit/Window/Bound.antt =====
-- internal/repository/ratelimit_repo.go, Allow: histories of requests of one address, with lost
-- replies and the steps of other parts between them.
use Prim.Native.String.{◌++◌}
use native.Mathlib.Nat.{le_of_eq}
use ktauth.Prelude.{
  ℕ, ◌≤◌, ℤ, lt_int, is_one, pos_part, String, Bool, false, Bool-cases, List, [], ◌∷◌, ◌≡◌, ap, ◌∙◌,
  inl, inr, none, arith, if◌then◌else◌, subst, sym,
}
use ktauth.Effects.{Result, ok, err}
use ktauth.Redis.{Redis, Env}
use ktauth.Redis.Laws.{View, entries, has_member}
use ktauth.Repository.RateLimit.{sliding_window, script_result, allow}
use ktauth.Repository.RateLimit.Window.Counts.{recent_entries, within, All-le_trans}
use ktauth.Repository.RateLimit.Window.Script.{Laws, Inv, sliding_window-eq}
use ktauth.Repository.RateLimit.Window.Invariant.{sliding_window-Inv}

abbrev pub rate_key : String → String
rate_key ip = "ratelimit:ip:" ++ ip

-- The request went through: the call returned true and no error.
abbrev pub is_granted : Result Bool → Bool
is_granted (ok b) = b
is_granted (err e) = false

module _ {W : Type 0} (r : Redis W) (env : Env W) (v : View W) (ip : String) (window : ℕ)
    (limit : ℤ) where
  open v use {live, clock}

  -- uuid.New() gives an identifier that is not in the set yet.
  abbrev pub IsFresh : W → Type 0
  IsFresh w = has_member (env.new_uuid w).0 (entries (live w (clock w) (rate_key ip))) ≡ false

  -- Worlds that the calls of Allow for one address reach, with the times of the allowed ones. Between
  -- two calls time passes, and anything else may happen that does not touch the key of the address.
  pub data Run : W → List ℕ → Type 0 where
    start : {w : W} → ((t : ℕ) → clock w ≤ t → live w t (rate_key ip) ≡ none) → Run w []
    call :
        {w w' : W} {times : List ℕ} (res : Result Bool)
        → Run w times
        → IsFresh w
        → allow r env ip limit window w ≡ (res, w')
        → Run w' (if is_granted res then env.now_ms w ∷ times else times)
    other_step :
        {w w' : W} {times : List ℕ}
        → Run w times
        → clock w ≤ clock w'
        → ((t : ℕ) → clock w' ≤ t → live w' t (rate_key ip) ≡ live w t (rate_key ip))
        → Run w' times

module _ {W : Type 0} {r : Redis W} {env : Env W} {v : View W} (l : Laws r env v) where
  open v use {live, clock}

  module _ (ip : String) (window : ℕ) (limit : ℤ) where
    abbrev Holds : W → List ℕ → Type 0
    Holds = Inv r env v (rate_key ip) window limit

    moved-Inv :
        {w w' : W} {times : List ℕ}
        → Holds w times
        → clock w ≤ clock w'
        → ((t : ℕ) → clock w' ≤ t → live w' t (rate_key ip) ≡ live w t (rate_key ip))
        → Holds w' times
    moved-Inv {w} {w'} {times} i later same = record {
      recorded = λ t h. rw (same t h) (i.recorded t (omega arith));
      zsets = λ t h. rw (same t h) (i.zsets t (omega arith));
      past = All-le_trans times later i.past;
      bounded = i.bounded;
    }

    forget-Inv :
        {w : W} {a : ℕ} {times : List ℕ}
        → ((t : ℕ) → within window t times ≤ pos_part limit)
        → Holds w (a ∷ times)
        → Holds w times
    forget-Inv bounded i = record {
      recorded = λ t h. omega (arith, i.recorded t h);
      zsets = i.zsets;
      past = i.past.1;
      bounded = bounded;
    }

    abbrev script : W → String → W → ℤ × W
    script w m = sliding_window r (rate_key ip) window limit (clock w) m

    -- The script answers, fails before it runs, or runs and its reply is lost.
    eval-Inv :
        {w : W} {times : List ℕ} (m : String)
        → Holds w times
        → has_member m (entries (live w (clock w) (rate_key ip))) ≡ false
        → let out = r.eval (script w m) w in
          Holds out.1 (if is_granted (script_result is_one out.0) then clock w ∷ times else times)
    unfolding script_result
    eval-Inv {w} m i fresh = elim (sliding_window-Inv l (rate_key ip) window limit w m i fresh) [
      | inl (one, grown) ↦ elim (l.evals.eval-cases (script w m) w) [
        | inl answer ↦ rw (answer, one) grown
        | inr (e, failed, inl unrun) ↦ rw (failed, unrun) i
        | inr (e, failed, inr ran) ↦ rw (failed, ran) (forget-Inv i.bounded grown)
      ]
      | inr (nil, same) ↦ elim (l.evals.eval-cases (script w m) w) [
        | inl answer ↦ rw (answer, nil) same
        | inr (e, failed, inl unrun) ↦ rw (failed, unrun) i
        | inr (e, failed, inr ran) ↦ rw (failed, ran) same
      ]
    ]

    eval-decides :
        {w : W} {times : List ℕ} (m : String) (b : Bool)
        → Holds w times
        → has_member m (entries (live w (clock w) (rate_key ip))) ≡ false
        → script_result is_one (r.eval (script w m) w).0 ≡ ok b
        → b
          ≡ lt_int
              (recent_entries window (clock w) (entries (live w (clock w) (rate_key ip))))
              limit
    unfolding script_result
    eval-decides {w} m b i fresh e =
        let run = sliding_window-eq l (rate_key ip) window w i.zsets m fresh limit in
        elim (l.evals.eval-cases (script w m) w) [
          | inl answer ↦
              elim (Bool-cases (
                lt_int (recent_entries window (clock w) (entries (live w (clock w) (rate_key ip))))
                  limit)) [
                    | inl room ↦ rw room (cc (rw (answer, run, room) at e))
                    | inr full ↦ rw full (cc (rw (answer, run, full) at e))
                  ]
          | inr (x, failed, _) ↦ absurd (cc (rw failed at e))
        ]

    uuid-Inv : {w : W} {times : List ℕ} → Holds w times → Holds (env.new_uuid w).1 times
    uuid-Inv {w} i =
        let same = l.time.uuid-Same w in
        moved-Inv i (le_of_eq (sym same.same_clock)) (λ t _. same.same_live t (rate_key ip))

    uuid-IsFresh :
        (w : W)
        → IsFresh r env v ip window limit w
        → let w₁ = (env.new_uuid w).1 in
          has_member (env.new_uuid w).0 (entries (live w₁ (clock w₁) (rate_key ip))) ≡ false
    uuid-IsFresh w fresh =
        let same = l.time.uuid-Same w in
        rw (same.same_live (clock (env.new_uuid w).1) (rate_key ip), same.same_clock) fresh

    -- One call of Allow, whether it answers, fails before the script or loses the reply.
    allow-Inv :
        {w : W} {times : List ℕ}
        → Holds w times
        → IsFresh r env v ip window limit w
        → let out = allow r env ip limit window w in
          Holds out.1 (if is_granted out.0 then env.now_ms w ∷ times else times)
    unfolding allow script_result
    allow-Inv {w} {times} i fresh =
        let same = l.time.uuid-Same w in
        let now : env.now_ms w ≡ clock (env.new_uuid w).1 = l.time.now-eq w ∙ sym same.same_clock in
        rw now (eval-Inv (env.new_uuid w).0 (uuid-Inv i) (uuid-IsFresh w fresh))

    start-Inv : {w : W} → ((t : ℕ) → clock w ≤ t → live w t (rate_key ip) ≡ none) → Holds w []
    start-Inv none_live = record {
      recorded = λ t h. omega arith;
      zsets = λ t h. rw (none_live t h) tt;
      past = tt;
      bounded = λ t. omega arith;
    }

    Run-Inv : {w : W} {times : List ℕ} → Run r env v ip window limit w times → Holds w times
    Run-Inv (start none_live) = start-Inv none_live
    Run-Inv (call {w = w} {w' = w'} {times = times} res before fresh e) =
        subst
          (λ (out : Result Bool × W).
            Holds out.1 (if is_granted out.0 then env.now_ms w ∷ times else times))
          e (allow-Inv (Run-Inv before) fresh)
    Run-Inv (other_step before later same) = moved-Inv (Run-Inv before) later same

    -- For any history of requests of one address, with lost replies, failures and other steps
    -- between them, the requests that the sliding window allowed in any window (t - window, t]
    -- are at most the limit (none if it is negative), given the documented behaviour of the Redis
    -- commands, and identifiers that are not in the set yet.
    pub window_bound :
        {w : W} {times : List ℕ} (t : ℕ)
        → Run r env v ip window limit w times
        → within window t times ≤ pos_part limit
    window_bound t run = (Run-Inv run).bounded t

    -- In a history of requests of one address, an answer of Allow is true if and only if fewer
    -- entries than the limit stand in the window that ends now; given the documented behaviour of
    -- the Redis commands.
    pub allow-decides :
        {w w' : W} {times : List ℕ} (b : Bool)
        → Run r env v ip window limit w times
        → IsFresh r env v ip window limit w
        → allow r env ip limit window w ≡ (ok b, w')
        → b
          ≡ lt_int
              (recent_entries window (clock w) (entries (live w (clock w) (rate_key ip))))
              limit
    unfolding allow
    allow-decides {w} b run fresh e =
        let same = l.time.uuid-Same w in
        let now : env.now_ms w ≡ clock (env.new_uuid w).1 = l.time.now-eq w ∙ sym same.same_clock in
        let answer : script_result is_one
              (r.eval (script (env.new_uuid w).1 (env.new_uuid w).0) (env.new_uuid w).1).0
            ≡ ok b =
          rw now at (ap (λ (out : Result Bool × W). out.0) e) in
        rw (same.same_live (clock (env.new_uuid w).1) (rate_key ip), same.same_clock) at
          (eval-decides (env.new_uuid w).0 b (uuid-Inv (Run-Inv run)) (uuid-IsFresh w fresh) answer)
