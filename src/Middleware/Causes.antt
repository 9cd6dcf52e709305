-- ===== src/Middleware/Causes.antt =====
-- internal/middleware and internal/logctx: the reason that each middleware records when it aborts.
use ktauth.Prelude.{
  ℕ, ◌≤◌, String, Bool, true, false, ◌&&◌, not, ◌==◌, str_eq, Option-cases, Bool-cases, ◌≡◌, ◌⊎◌,
  refl, inl, inr, subst, sym, arith, if◌then◌else◌,
}
use ktauth.Effects.{Result-cases}
use ktauth.Redis.{Env}
use ktauth.Jwt.{Jwt, Claims, parse_token}
use ktauth.Model.{IpRuleType, ip_white_list, ip_black_list, ip_grey_list}
use ktauth.Gin.{Context, Handler}
use ktauth.Logctx.{
  Reason, reason_text, no_reason, unattributed, route_not_found, ip_rule_lookup_failed,
  ip_blacklisted, ip_not_whitelisted, unknown_ip_rule, ratelimit_unavailable, ratelimit_exceeded,
  missing_bearer_token, invalid_token, invalid_session, insufficient_role, set_reason,
  set_reason_detail,
}
use ktauth.Middleware.CheckIp.{IpRuleQuerier, apply_rule, acl}
use ktauth.Middleware.RateLimit.{RateLimiter, IpRuleAdder, limit_unlisted, rate_limit}
use ktauth.Middleware.Auth.{SessionReader, strip_prefix, check_role, check_session, verify_session}

-- A reason that a middleware or a handler records; the others are the access log's own.
abbrev pub is_cause : Reason → Bool
is_cause no_reason = false
is_cause unattributed = false
is_cause route_not_found = false
is_cause _ = true

-- An answer by an error, with its cause.
pub record IsExplained (c : Context) : Type 0 where
  pub cause : Reason
  pub named : is_cause cause ≡ true
  pub given : str_eq (reason_text cause) "" ≡ false
  pub recorded : c.reason ≡ reason_text cause
  pub failed : 400 ≤ c.status

-- What a guard does with a context: it goes on, or explains its refusal.
abbrev pub Guarded : Context → Type 0
Guarded c = (c.aborted ≡ false) ⊎ ((c.aborted ≡ true) × IsExplained c)

explain :
    (cause : Reason)
    → is_cause cause ≡ true
    → str_eq (reason_text cause) "" ≡ false
    → (c : Context) → c.aborted ≡ true
    → c.reason ≡ reason_text cause
    → 400 ≤ c.status
    → Guarded c
explain cause named given c stop recorded failed = inr (
  stop,
  record { cause = cause; named = named; given = given; recorded = recorded; failed = failed },
)

abbrev pub IsGuard : {W : Type 0} → Handler W → Type 0
IsGuard {W} h = (c : Context) (w : W) → c.aborted ≡ false → Guarded (h c w).0

apply_rule-Guarded :
    (level : ℕ) (rule : IpRuleType) (c : Context)
    → c.aborted ≡ false
    → Guarded (apply_rule level rule c)
unfolding apply_rule set_reason
apply_rule-Guarded level rule c running = elim (Bool-cases (str_eq rule ip_black_list)) [
  | inl black ↦ rw black (explain ip_blacklisted refl refl _ refl refl (omega arith))
  | inr not_black ↦ elim (Bool-cases (str_eq rule ip_grey_list)) [
    | inl grey ↦ elim (Bool-cases (level == 1)) [
      | inl high ↦
          rw (not_black, grey, high)
            (explain ip_not_whitelisted refl refl _ refl refl (omega arith))
      | inr low ↦ rw (not_black, grey, low) (inl running)
    ]
    | inr not_grey ↦ elim (Bool-cases (str_eq rule ip_white_list)) [
      | inl white ↦ rw (not_black, not_grey, white) (inl running)
      | inr unknown ↦
          rw (not_black, not_grey, unknown)
            (explain unknown_ip_rule refl refl _ refl refl (omega arith))
    ]
  ]
]

pub acl-IsGuard : {W : Type 0} (querier : IpRuleQuerier W) (level : ℕ) → IsGuard (acl querier level)
unfolding acl set_reason_detail
acl-IsGuard querier level c w running =
    elim (Result-cases (querier.query_rule c.request.client_ip w).0) [
      | inl (rule, found) ↦
          simp found (apply_rule-Guarded level rule (record c { rule = rule }) running)
      | inr (e, lost) ↦
          simp lost (explain ip_rule_lookup_failed refl refl _ refl refl (omega arith))
    ]

limit_unlisted-IsGuard :
    {W : Type 0} (limiter : RateLimiter W) (adder : IpRuleAdder W)
    → IsGuard (limit_unlisted limiter adder)
unfolding limit_unlisted set_reason set_reason_detail
limit_unlisted-IsGuard limiter adder c w running =
    elim (Result-cases (limiter.allow c.request.client_ip w).0) [
      | inr (e, lost) ↦
          simp lost (explain ratelimit_unavailable refl refl _ refl refl (omega arith))
      | inl (true, allow) ↦ simp allow (inl running)
      | inl (false, deny) ↦
          simp deny (explain ratelimit_exceeded refl refl _ refl refl (omega arith))
    ]

pub rate_limit-IsGuard :
    {W : Type 0} (limiter : RateLimiter W) (adder : IpRuleAdder W)
    → IsGuard (rate_limit limiter adder)
unfolding rate_limit
rate_limit-IsGuard limiter adder c w running =
    let either : Bool → Type 0 =
      λ b. Guarded (if b then (c, w) else limit_unlisted limiter adder c w).0 in
    elim (Bool-cases c.whitelist) [
      | inl white ↦ subst either (sym white) (inl running)
      | inr grey ↦ subst either (sym grey) (limit_unlisted-IsGuard limiter adder c w running)
    ]

check_role-Guarded :
    (require_role : String) (claims : Claims) (c : Context)
    → c.aborted ≡ false
    → Guarded (check_role require_role claims c)
unfolding check_role set_reason
check_role-Guarded require_role claims c running =
    elim (Bool-cases (str_eq require_role "admin" && not (str_eq claims.role "admin"))) [
      | inl lacks ↦ rw lacks (explain insufficient_role refl refl _ refl refl (omega arith))
      | inr enough ↦ rw enough (inl running)
    ]

module _ {W : Type 0} (jwt : Jwt) (env : Env W) (reader : SessionReader W)
    (require_role : String) where
  check_session-IsGuard :
      (claims : Claims) → IsGuard (check_session jwt env reader require_role claims)
  unfolding check_session set_reason_detail
  check_session-IsGuard claims c w running =
      elim (Result-cases (reader.get_session claims.uuid claims.id w).0) [
        | inr (x, lost) ↦ simp lost (explain invalid_session refl refl _ refl refl (omega arith))
        | inl (uuid, found) ↦ elim (Bool-cases (str_eq claims.uuid uuid)) [
          | inl same ↦ simp (found, same) (check_role-Guarded require_role claims c running)
          | inr other ↦
              simp (found, other) (explain invalid_session refl refl _ refl refl (omega arith))
        ]
      ]

  pub verify_session-IsGuard : IsGuard (verify_session jwt env reader require_role)
  unfolding verify_session set_reason set_reason_detail
  verify_session-IsGuard c w running =
      elim (Option-cases (strip_prefix "Bearer " (c.request.header "Authorization"))) [
        | inl missing ↦
            rw (missing, verify_session)
              (explain missing_bearer_token refl refl _ refl refl (omega arith))
        | inr (token, bearer) ↦ elim (Result-cases (parse_token jwt env token w)) [
          | inr (x, lost) ↦
              rw (bearer, verify_session, lost)
                (explain invalid_token refl refl _ refl refl (omega arith))
          | inl (claims, parsed) ↦
              rw (bearer, verify_session, parsed) (check_session-IsGuard claims c w running)
        ]
      ]
