-- ===== src/Routes/Causes.antt =====
-- cmd/ktauth/main.go: what the access log says of the requests to the routes that end in a 204, /kt/0,
-- /kt/1 and /api/users/auth.
use ktauth.Prelude.{ℕ, ◌≤◌, true, Option, none, some, List, [], ◌∷◌, ◌≡◌, ◌⊎◌}
use ktauth.Gin.{Context, Handler, Request, fresh_context}
use ktauth.Gin.Engine.{Engine}
use ktauth.Logctx.{Reason, reason_text}
use ktauth.Middleware.AccessLog.{LogRecord, text, access_log}
use ktauth.Middleware.AccessLog.Attribution.{values}
use ktauth.Middleware.Causes.{is_cause, IsExplained}
use ktauth.Routes.{Guards}

-- A 204 that is not logged, or a refusal that is logged with its cause, and no other reason.
pub data Told (c : Context) (out : Option LogRecord) : Type 0 where
  admitted : c.status ≡ 204 → out ≡ none → Told c out
  refused :
      (r : LogRecord) (cause : Reason)
      → 400 ≤ c.status
      → out ≡ some r
      → is_cause cause ≡ true
      → values "reason" r.attrs ≡ text (reason_text cause) ∷ []
      → Told c out

module _ {W : Type 0} (engine : Engine W) where
  -- The end of a route: 204, or an explained refusal.
  abbrev Ending : Context → Type 0
  Ending c = (c.status ≡ 204) ⊎ IsExplained c

  module _ (g : Guards W) where
    -- The answer of a route to a request, and the log's record of it.
    abbrev pub Tells : List (Handler W) → Request → W → ℕ → Type 0
    Tells hs req w micros =
        let c = (engine.serve hs (fresh_context req) w).0 in Told c (access_log c micros)
