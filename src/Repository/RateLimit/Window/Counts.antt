-- ===== src/Repository/RateLimit/Window/Counts.antt =====
-- Counting timestamps in a window: the arithmetic behind internal/repository/ratelimit_repo.go.
use ktauth.Prelude.{
  ℕ, ◌+◌, ◌≤◌, ℤ, sub_ℕ, le_int-sub_ℕ, String, false, ltb, leb, ◌&&◌, List, [], ◌∷◌, ◌≡◌, refl,
  length, count, All, count-le_of_imp, count-filter, arith,
}
use ktauth.Redis.Laws.{has_member, without_member, above}

-- The timestamps that are still inside a window that ends at `t`.
abbrev pub recent : ℕ → ℕ → List ℕ → ℕ
recent window t = count (λ a. ltb t (a + window))

abbrev pub recent_entries : ℕ → ℕ → List (ℕ × String) → ℕ
recent_entries window t = count (λ e. ltb t (e.0 + window))

-- The timestamps in the window (t - window, t].
abbrev pub within : ℕ → ℕ → List ℕ → ℕ
within window t = count (λ a. leb a t && ltb t (a + window))

pub recent_entries-above :
    (window now t : ℕ) (l : List (ℕ × String))
    → now ≤ t
    → recent_entries window t (above (sub_ℕ now window) l) ≡ recent_entries window t l
recent_entries-above window now t l h =
    count-filter _ _ l (λ e q. ground (arith, le_int-sub_ℕ e.0 now window))

pub length-above :
    (window now : ℕ) (l : List (ℕ × String))
    → length (above (sub_ℕ now window) l) ≡ recent_entries window now l
length-above window now [] = refl
length-above window now (e ∷ l) =
    ground (arith, le_int-sub_ℕ e.0 now window, length-above window now l)

pub has_member-above :
    (m : String) (max : ℤ) (l : List (ℕ × String))
    → has_member m l ≡ false
    → has_member m (above max l) ≡ false
has_member-above m max [] h = refl
has_member-above m max ((s, n) ∷ l) h = ground (arith, has_member-above m max l)

pub without_member-eq :
    (m : String) (l : List (ℕ × String)) → has_member m l ≡ false → without_member m l ≡ l
without_member-eq m [] h = refl
without_member-eq m ((s, n) ∷ l) h = ground (arith, without_member-eq m l)

-- Once a window has passed since all of them, none is recent.
pub recent-eq-zero :
    (window now t : ℕ) (xs : List ℕ)
    → now + window ≤ t
    → All (λ a. a ≤ now) xs
    → recent window t xs ≡ 0
recent-eq-zero window now t [] h all = refl
recent-eq-zero window now t (a ∷ xs) h all = ground (arith, recent-eq-zero window now t xs)

pub recent_mono : (window s t : ℕ) (xs : List ℕ) → s ≤ t → recent window t xs ≤ recent window s xs
recent_mono window s t xs h = count-le_of_imp _ _ xs (λ a q. ground arith)

pub within-le-recent :
    (window s t : ℕ) (xs : List ℕ) → s ≤ t → within window t xs ≤ recent window s xs
within-le-recent window s t xs h = count-le_of_imp _ _ xs (λ a q. ground arith)

pub All-le_trans : {s t : ℕ} (xs : List ℕ) → s ≤ t → All (λ a. a ≤ s) xs → All (λ a. a ≤ t) xs
All-le_trans [] h all = tt
All-le_trans (a ∷ xs) h all = (omega arith, All-le_trans xs h all.1)
