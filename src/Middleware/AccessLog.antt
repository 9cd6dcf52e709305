-- ===== src/Middleware/AccessLog.antt =====
-- internal/middleware/accesslog.go: the log record of an answer.
pub mod Attribution
pub mod OriginalMethod
use ktauth.Prelude.{
  ℕ, String, Bool, Option, none, some, List, [], ◌∷◌, ◌++◌, ltb, leb, ◌==◌, str_eq, if◌then◌else◌,
}
use ktauth.Gin.{Context}
use ktauth.Logctx.{reason_of, detail_of, reason_text, unattributed, route_not_found}

pub data Value : Type 0 where
  number : ℕ → Value
  -- microseconds, which are logged as milliseconds
  duration : ℕ → Value
  text : String → Value

pub data Level : Type 0 where
  error warn : Level

-- slog.Error or slog.Warn with its attributes
pub record LogRecord : Type 0 where
  pub level : Level
  pub title : String
  pub attrs : List (String × Value)

-- `if v := …; v != "" { attrs = append(attrs, key, v) }`
abbrev pub append_given : String → String → List (String × Value) → List (String × Value)
append_given key v attrs = if str_eq v "" then attrs else attrs ++ ((key, text v) ∷ [])

unfoldable pub request_attrs : Context → ℕ → List (String × Value)
request_attrs c micros =
    ("status", number c.status)
    ∷ ("method", text c.request.method)
    ∷ ("path", text c.request.path)
    ∷ ("query", text c.request.raw_query)
    ∷ ("host", text c.request.host)
    ∷ ("clientIP", text c.request.client_ip)
    ∷ ("durationMs", duration micros)
    ∷ []

-- The client's request as the reverse proxy reports it.
unfoldable pub original_attrs : Context → List (String × Value) → List (String × Value)
original_attrs c attrs =
    let uri = c.request.header "X-Original-URI" in
    let nginx =
      append_given "originalMethod" (c.request.header "X-Original-Method")
        (append_given "originalURI" uri attrs) in
    if str_eq uri ""
    then append_given "originalMethod" (c.request.header "X-Forwarded-Method")
        (append_given "originalURI" (c.request.header "X-Forwarded-Uri") nginx)
    else nginx

-- The recorded reason, or what stands for none.
unfoldable pub logged_reason : Context → String
logged_reason c =
    if str_eq (reason_of c) ""
    then (if c.status == 404 then reason_text route_not_found else reason_text unattributed)
    else reason_of c

unfoldable pub log_attrs : Context → ℕ → List (String × Value)
unfolding request_attrs original_attrs logged_reason
log_attrs c micros = append_given "uuid" c.uuid (
    append_given "detail" (detail_of c) (
      append_given "rule" c.rule (original_attrs c (request_attrs c micros))
      ++ (("reason", text (logged_reason c)) ∷ [])))

-- AccessLog, behind c.Next()
unfoldable pub access_log : Context → ℕ → Option LogRecord
unfolding log_attrs
access_log c micros =
    if ltb c.status 400
    then none
    else some (
        if leb 500 c.status
        then record { level = error; title = "request failed"; attrs = log_attrs c micros }
        else record { level = warn; title = "request rejected"; attrs = log_attrs c micros })
