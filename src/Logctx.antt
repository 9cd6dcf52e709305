-- ===== src/Logctx.antt =====
-- internal/logctx/logctx.go: why a request is rejected, for the access log.
use ktauth.Prelude.{String, Option, none, some, str_eq, if◌then◌else◌}
use ktauth.Errors.{Error, message}
use ktauth.Gin.{Context}

pub data Reason : Type 0 where
  no_reason : Reason
  missing_bearer_token invalid_token invalid_session insufficient_role : Reason
  ip_rule_lookup_failed ip_blacklisted ip_not_whitelisted unknown_ip_rule : Reason
  ratelimit_unavailable ratelimit_exceeded : Reason
  smtp_not_configured invalid_body code_recently_sent invalid_email send_code_failed : Reason
  code_required verify_code_failed invalid_code invalid_invite_token : Reason
  missing_credentials invalid_email_code create_user_failed user_lookup_failed : Reason
  invalid_credentials sign_token_failed create_session_failed delete_session_failed : Reason
  invalid_ip ip_rule_exists ip_rule_not_found add_ip_rule_failed list_ip_rules_failed : Reason
  delete_ip_rule_failed list_users_failed restock_tokens_failed flush_tokens_failed : Reason
  unattributed route_not_found : Reason

abbrev pub reason_text : Reason → String
reason_text no_reason = ""
reason_text missing_bearer_token = "missing_bearer_token"
reason_text invalid_token = "invalid_token"
reason_text invalid_session = "invalid_session"
reason_text insufficient_role = "insufficient_role"
reason_text ip_rule_lookup_failed = "ip_rule_lookup_failed"
reason_text ip_blacklisted = "ip_blacklisted"
reason_text ip_not_whitelisted = "ip_not_whitelisted"
reason_text unknown_ip_rule = "unknown_ip_rule"
reason_text ratelimit_unavailable = "ratelimit_unavailable"
reason_text ratelimit_exceeded = "ratelimit_exceeded"
reason_text smtp_not_configured = "smtp_not_configured"
reason_text invalid_body = "invalid_body"
reason_text code_recently_sent = "code_recently_sent"
reason_text invalid_email = "invalid_email"
reason_text send_code_failed = "send_code_failed"
reason_text code_required = "code_required"
reason_text verify_code_failed = "verify_code_failed"
reason_text invalid_code = "invalid_code"
reason_text invalid_invite_token = "invalid_invite_token"
reason_text missing_credentials = "missing_credentials"
reason_text invalid_email_code = "invalid_email_code"
reason_text create_user_failed = "create_user_failed"
reason_text user_lookup_failed = "user_lookup_failed"
reason_text invalid_credentials = "invalid_credentials"
reason_text sign_token_failed = "sign_token_failed"
reason_text create_session_failed = "create_session_failed"
reason_text delete_session_failed = "delete_session_failed"
reason_text invalid_ip = "invalid_ip"
reason_text ip_rule_exists = "ip_rule_exists"
reason_text ip_rule_not_found = "ip_rule_not_found"
reason_text add_ip_rule_failed = "add_ip_rule_failed"
reason_text list_ip_rules_failed = "list_ip_rules_failed"
reason_text delete_ip_rule_failed = "delete_ip_rule_failed"
reason_text list_users_failed = "list_users_failed"
reason_text restock_tokens_failed = "restock_tokens_failed"
reason_text flush_tokens_failed = "flush_tokens_failed"
reason_text unattributed = "unattributed"
reason_text route_not_found = "route_not_found"

-- SetReason
unfoldable pub set_reason : Reason → Context → Context
set_reason reason c =
    if str_eq (reason_text reason) "" then c else record c { reason = reason_text reason }

-- SetReasonDetail
unfoldable pub set_reason_detail : Reason → Option Error → Context → Context
unfolding set_reason message
set_reason_detail reason error c =
    let c₁ = set_reason reason c in
    elim error [ none ↦ c₁ | some e ↦ record c₁ { detail = message e } ]

-- ReasonOf and DetailOf, which answer "" where none was set
abbrev pub reason_of : Context → String
reason_of c = c.reason

abbrev pub detail_of : Context → String
detail_of c = c.detail
