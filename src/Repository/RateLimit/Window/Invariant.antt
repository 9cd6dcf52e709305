-- ===== src/Repository/RateLimit/Window/Invariant.antt =====
-- internal/repository/ratelimit_repo.go, slidingWindowScript: the invariant that ties the allowed
-- requests to the sorted set.
use native.Mathlib.Nat.{le_refl}
use ktauth.Prelude.{
  ℕ, ◌+◌, ◌≤◌, ℤ, lt_int, lt_int→lt, pos, pos_part, String, true, false, ltb, Bool-cases, List, ◌∷◌,
  ◌≡◌, ◌⊎◌, refl, inl, inr, arith, All, subst, sym,
}
use ktauth.Redis.{Redis, Env}
use ktauth.Redis.Laws.{View, entries, IsZset, has_member}
use ktauth.Repository.RateLimit.{sliding_window}
use ktauth.Repository.RateLimit.Window.Counts.{
  recent, recent_entries, within, recent-eq-zero, within-le-recent,
}
use ktauth.Repository.RateLimit.Window.Script.{
  Laws, Inv, pruned, pruned-recent, pruned-clock, pruned-IsZset, added, added-clock, added-live,
  sliding_window-eq,
}

module _ {W : Type 0} {r : Redis W} {env : Env W} {v : View W} (l : Laws r env v) where
  open v use {live, clock}

  module _ (key : String) (window : ℕ) (limit : ℤ) (w : W) {times : List ℕ}
      (i : Inv r env v key window limit w times) where
    abbrev kept : W
    kept = pruned l key window w i.zsets

    pub pruned-Inv : Inv r env v key window limit kept times
    pruned-Inv = record {
      recorded = λ t h.
          let h' : clock w ≤ t = rw (pruned-clock l key window w i.zsets) at h in
          rw (pruned-recent l key window w i.zsets t t h' h') (i.recorded t h');
      zsets = λ t h.
          pruned-IsZset l key window w i.zsets t (rw (pruned-clock l key window w i.zsets) at h);
      past = rw (pruned-clock l key window w i.zsets) i.past;
      bounded = i.bounded;
    }

    -- What was recorded is still in the pruned set, seen at any later time.
    recorded-pruned :
        (t : ℕ)
        → clock w ≤ t
        → recent window t times ≤ recent_entries window t (entries (live kept (clock w) key))
    recorded-pruned t h =
        rw (pruned-recent l key window w i.zsets (clock w) t (le_refl _) h)
          (elim (l.time.expiry w (clock w) t key h) [
            | inl same ↦ rw same at (i.recorded t h)
            | inr gone ↦
                let none_left : recent window t times ≤ 0 = rw gone at (i.recorded t h) in
                omega arith
          ])

    module _ (m : String) (fresh : has_member m (entries (live w (clock w) key)) ≡ false)
        (room : lt_int (recent_entries window (clock w) (entries (live w (clock w) key))) limit
          ≡ true) where
      abbrev grown : W
      grown = added l key window w i.zsets m fresh

      added-bounded : (t : ℕ) → within window t (clock w ∷ times) ≤ pos_part limit
      added-bounded t = ground (
        arith,
        i.bounded t,
        within-le-recent window (clock w) t times,
        i.recorded (clock w) (le_refl _),
        lt_int→lt _ limit room,
      )

      added-recorded :
          (t : ℕ)
          → clock w ≤ t
          → recent window t (clock w ∷ times) ≤ recent_entries window t (entries (live grown t key))
      added-recorded t h =
          rw (added-live l key window w i.zsets m fresh t h)
            (elim (Bool-cases (ltb t (clock w + window))) [
              | inl inside ↦ rw (inside, inside) (omega (arith, recorded-pruned t h))
              | inr outside ↦
                  let over : clock w + window ≤ t = ground arith in
                  rw outside (omega (arith, recent-eq-zero window (clock w) t times over i.past))
            ])

      added-IsZset : (t : ℕ) → clock w ≤ t → IsZset (live grown t key)
      added-IsZset t h =
          rw (added-live l key window w i.zsets m fresh t h)
            (elim (Bool-cases (ltb t (clock w + window))) [
              | inl inside ↦ rw inside tt
              | inr outside ↦ rw outside tt
            ])

      pub added-Inv : Inv r env v key window limit grown (clock w ∷ times)
      added-Inv =
          let back = added-clock l key window w i.zsets m fresh in
          record {
            recorded = λ t h. added-recorded t (rw back at h);
            zsets = λ t h. added-IsZset t (rw back at h);
            past = subst (λ c. All (λ a. a ≤ c) (clock w ∷ times)) (sym back) (le_refl _, i.past);
            bounded = added-bounded;
          }

  -- Either outcome of a run of the script keeps the invariant, with the request counted if allowed.
  pub sliding_window-Inv :
      (key : String) (window : ℕ) (limit : ℤ) (w : W) {times : List ℕ} (m : String)
      → Inv r env v key window limit w times
      → has_member m (entries (live w (clock w) key)) ≡ false
      → let s = sliding_window r key window limit (clock w) m in
        (((s w).0 ≡ pos 1) × Inv r env v key window limit (s w).1 (clock w ∷ times))
        ⊎ (((s w).0 ≡ pos 0) × Inv r env v key window limit (s w).1 times)
  sliding_window-Inv key window limit w m i fresh =
      let run = sliding_window-eq l key window w i.zsets m fresh limit in
      elim (Bool-cases
        (lt_int (recent_entries window (clock w) (entries (live w (clock w) key))) limit)) [
          | inl room ↦ inl (rw (run, room) (refl, added-Inv key window limit w i m fresh room))
          | inr full ↦ inr (rw (run, full) (refl, pruned-Inv key window limit w i))
        ]
