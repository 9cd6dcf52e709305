-- ===== src/Repository/RateLimit/Window/Script.antt =====
-- internal/repository/ratelimit_repo.go, slidingWindowScript: what one run does to the sorted set.
use ktauth.Prelude.{
  ℕ, ◌+◌, ◌≤◌, ℤ, sub_ℕ, lt_int, pos, pos_part, String, false, ltb, List, ◌∷◌, ◌≡◌, ◌∙◌, none, some,
  All, if◌then◌else◌,
}
use native.Mathlib.Nat.{le_refl}
use ktauth.Redis.{Redis, Env}
use ktauth.Redis.Laws.{
  View, entries, IsZset, zset, has_member, without_member, TimeLaws, EvalLaws, ZsetLaws, ExpireLaws,
}
use ktauth.Repository.RateLimit.{sliding_window}
use ktauth.Repository.RateLimit.Window.Counts.{
  recent, recent_entries, within, recent_entries-above, length-above, has_member-above,
  without_member-eq,
}

module _ {W : Type 0} (r : Redis W) (env : Env W) (v : View W) where
  open v use {live, clock}

  pub record Laws : Type 0 where
    pub time : TimeLaws r env v
    pub evals : EvalLaws r env v
    pub zsets : ZsetLaws r env v
    pub expires : ExpireLaws r env v

  module _ (key : String) (window : ℕ) (limit : ℤ) where
    -- `times` are the timestamps of the allowed requests, the newest first.
    pub record Inv (w : W) (times : List ℕ) : Type 0 where
      pub recorded :
          (t : ℕ)
          → clock w ≤ t
          → recent window t times ≤ recent_entries window t (entries (live w t key))
      pub zsets : (t : ℕ) → clock w ≤ t → IsZset (live w t key)
      pub past : All (λ a. a ≤ clock w) times
      pub bounded : (t : ℕ) → within window t times ≤ pos_part limit

module _ {W : Type 0} {r : Redis W} {env : Env W} {v : View W} (l : Laws r env v) where
  open v use {live, clock}
  open l.zsets use {zrem-clock, zrem-entries, zcard-eq, zadd-clock, zadd-entries}

  module _ (key : String) (window : ℕ) (w : W)
      (zs : (t : ℕ) → clock w ≤ t → IsZset (live w t key)) where
    pub pruned : W
    pruned = r.call_zremrangebyscore key (sub_ℕ (clock w) window) w

    pub pruned-recent :
        (s t : ℕ)
        → clock w ≤ s
        → clock w ≤ t
        → recent_entries window t (entries (live pruned s key))
          ≡ recent_entries window t (entries (live w s key))
    unfolding pruned
    pruned-recent s t hs ht =
        rw (zrem-entries key (sub_ℕ (clock w) window) w s hs (zs s hs)).0
          (recent_entries-above window (clock w) t _ ht)

    pub pruned-clock : clock pruned ≡ clock w
    unfolding pruned
    pruned-clock = zrem-clock key (sub_ℕ (clock w) window) w

    pub pruned-IsZset : (t : ℕ) → clock w ≤ t → IsZset (live pruned t key)
    unfolding pruned
    pruned-IsZset t h = (zrem-entries key (sub_ℕ (clock w) window) w t h (zs t h)).1

    -- After the pruning ZCARD counts exactly the requests in the window.
    pub zcard-pruned :
        r.call_zcard key pruned ≡ recent_entries window (clock w) (entries (live w (clock w) key))
    zcard-pruned =
        zcard-eq key pruned (rw pruned-clock (pruned-IsZset (clock w) (le_refl (clock w))))
        ∙ rw pruned-clock (
            unfold pruned in
            rw
              (zrem-entries key (sub_ℕ (clock w) window) w (clock w) (le_refl _)
                (zs _ (le_refl _))).0
              (length-above window (clock w) (entries (live w (clock w) key))))

    module _ (m : String) (fresh : has_member m (entries (live w (clock w) key)) ≡ false) where
      pub pruned-without :
          without_member m (entries (live pruned (clock w) key))
          ≡ entries (live pruned (clock w) key)
      unfolding pruned
      pruned-without = without_member-eq m _ (
          rw
            (zrem-entries key (sub_ℕ (clock w) window) w (clock w) (le_refl _) (zs _ (le_refl _))).0
            (has_member-above m _ _ fresh))

      pub inserted : W
      inserted = r.call_zadd key (clock w) m pruned

      pub inserted-clock : clock inserted ≡ clock w
      unfolding inserted
      inserted-clock = rw zadd-clock pruned-clock

      pub inserted-live :
          live inserted (clock w) key
          ≡ some (zset ((clock w, m) ∷ entries (live pruned (clock w) key)))
      unfolding inserted
      inserted-live =
          let zs' : IsZset (live pruned (clock pruned) key) =
            rw pruned-clock (pruned-IsZset (clock w) (le_refl (clock w))) in
          rw pruned-without at (rw pruned-clock at (zadd-entries key (clock w) m pruned zs'))

      pub added : W
      added = r.call_pexpire key window inserted

      pub added-clock : clock added ≡ clock w
      unfolding added
      added-clock = l.expires.pexpire-clock key window inserted ∙ inserted-clock

      pub added-live :
          (t : ℕ)
          → clock w ≤ t
          → live added t key ≡ (
              if ltb t (clock w + window)
              then some (zset ((clock w, m) ∷ entries (live pruned (clock w) key)))
              else none)
      unfolding added
      added-live t h = rw inserted-live at (
          rw inserted-clock at (l.expires.pexpire-live key window inserted t (rw inserted-clock h)))

      -- One run of the script at the time `clock w`, with an identifier that is not in the set.
      pub sliding_window-eq :
          (limit : ℤ)
          → sliding_window r key window limit (clock w) m w ≡ (
              if lt_int (recent_entries window (clock w) (entries (live w (clock w) key))) limit
              then (pos 1, added)
              else (pos 0, pruned))
      unfolding sliding_window added inserted pruned
      sliding_window-eq limit = rw zcard-pruned
