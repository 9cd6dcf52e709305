-- ===== src/Gin/Engine.antt =====
-- The engine of gin, as a hypothesis: the handlers of a route run in order until one aborts.
use mathlib.Core.Path.{◌≡◌, ◌∙◌, ap}
use ktauth.Prelude.{Bool, true, false, Bool-cases, inl, inr, List, [], ◌∷◌, if◌then◌else◌}
use ktauth.Gin.{Handler, Context}

pub record Engine (W : Type 0) : Type 0 where
  pub serve : List (Handler W) → Handler W
  pub serve-nil : (c : Context) (w : W) → serve [] c w ≡ (c, w)
  pub serve-cons :
      (h : Handler W) (hs : List (Handler W)) (c : Context) (w : W)
      → serve (h ∷ hs) c w ≡ (if (h c w).0.aborted then h c w else serve hs (h c w).0 (h c w).1)

module _ {W : Type 0} (engine : Engine W) (h : Handler W) (c : Context) (w : W) where
  pub serve-abort :
      (hs : List (Handler W)) → (h c w).0.aborted ≡ true → engine.serve (h ∷ hs) c w ≡ h c w
  serve-abort hs stop =
      engine.serve-cons h hs c w
      ∙ ap (λ (b : Bool). if b then h c w else engine.serve hs (h c w).0 (h c w).1) stop

  pub serve-pass :
      (hs : List (Handler W))
      → (h c w).0.aborted ≡ false
      → engine.serve (h ∷ hs) c w ≡ engine.serve hs (h c w).0 (h c w).1
  serve-pass hs go_on =
      engine.serve-cons h hs c w
      ∙ ap (λ (b : Bool). if b then h c w else engine.serve hs (h c w).0 (h c w).1) go_on

  -- The last handler of a route decides, whether it aborts or not.
  pub serve-last : engine.serve (h ∷ []) c w ≡ h c w
  serve-last = elim (Bool-cases (h c w).0.aborted) [
    | inl stop ↦ serve-abort [] stop
    | inr go_on ↦ serve-pass [] go_on ∙ engine.serve-nil _ _
  ]
