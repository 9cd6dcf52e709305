-- ===== src/Middleware/CheckIp.antt =====
-- internal/middleware/checkip.go: admission by the rule of the client's address.
pub mod Admitting
use ktauth.Prelude.{ℕ, String, [], ◌∷◌, true, false, some, ◌==◌, str_eq, if◌then◌else◌}
use ktauth.Effects.{Result, ok, err, on, Op}
use ktauth.Model.{IpRuleType, ip_white_list, ip_black_list, ip_grey_list}
use ktauth.Gin.{Context, Body, json, str, respond, abort, abort_with_status, Handler}
use ktauth.Logctx.{
  set_reason, set_reason_detail, ip_rule_lookup_failed, ip_blacklisted, ip_not_whitelisted,
  unknown_ip_rule,
}

pub record IpRuleQuerier (W : Type 0) : Type 0 where
  pub query_rule : String → Op W IpRuleType

abbrev pub denied : Context → Body
denied c =
    json
      (("message", str "Sorry, you are not allow to access") ∷ ("ip", str c.request.client_ip) ∷ [])

-- The switch on the rule.
unfoldable pub apply_rule : ℕ → IpRuleType → Context → Context
unfolding set_reason
apply_rule level rule_type c =
    if str_eq rule_type ip_black_list
    then abort (respond 403 (denied c) (set_reason ip_blacklisted c))
    else if str_eq rule_type ip_grey_list
    then (if level == 1
        then abort (respond 403 (denied c) (set_reason ip_not_whitelisted c))
        else record c { whitelist = false })
    else if str_eq rule_type ip_white_list
    then record c { whitelist = true }
    else abort_with_status 500 (set_reason unknown_ip_rule c)

-- ACL
unfoldable pub acl : {W : Type 0} → IpRuleQuerier W → ℕ → Handler W
unfolding apply_rule set_reason_detail
acl querier level c w =
    let (found, w₁) = querier.query_rule c.request.client_ip w in
    (
      on found (λ e. abort_with_status 500 (set_reason_detail ip_rule_lookup_failed (some e) c))
          (λ rule_type. apply_rule level rule_type (record c { rule = rule_type })),
      w₁,
    )
