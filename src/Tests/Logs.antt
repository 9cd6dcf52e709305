-- ===== src/Tests/Logs.antt =====
-- The access log at concrete answers.
use ktauth.Prelude.{str_eq, if◌then◌else◌}
use ktauth.Gin.{Context, fresh_context, abort_with_status}
use ktauth.Middleware.AccessLog.{access_log}
use ktauth.Middleware.AccessLog.Attribution.{Logged, access_log-Logged}
use ktauth.Tests.Routes.{from}

-- A request with the headers of both proxies.
abbrev proxied : Context
proxied = abort_with_status 403 (
    fresh_context (record (from "10.0.0.3") {
      header = λ name.
          if str_eq name "X-Original-Method"
          then "GET"
          else if str_eq name "X-Forwarded-Method"
          then "POST"
          else "";
    }))

access_log-Logged_example : Logged proxied (access_log proxied 1500)
access_log-Logged_example = access_log-Logged proxied 1500
