-- ===== src/Middleware/CheckIp/Admitting.antt =====
-- internal/middleware/checkip.go: whom ACL admits, and what it writes.
use ktauth.Prelude.{
  ℕ, true, false, ◌==◌, str_eq, Bool-cases, ◌≡◌, ◌≢◌, ◌⊎◌, refl, inl, inr, arith, eq_iff, ap,
}
use ktauth.Effects.{Result, ok, Result-cases}
use ktauth.Model.{IpRuleType, ip_white_list, ip_black_list, ip_grey_list}
use ktauth.Gin.{Context}
use ktauth.Middleware.CheckIp.{IpRuleQuerier, apply_rule, acl}

-- The three outcomes of ACL at a level for the querier's answer, from context c to c'.
pub data Admission (level : ℕ) (rule : Result IpRuleType) (c c' : Context) : Type 0 where
  white :
      rule ≡ ok ip_white_list
      → c' ≡ record c { rule = ip_white_list; whitelist = true }
      → Admission level rule c c'
  grey :
      rule ≡ ok ip_grey_list
      → level ≢ 1
      → c' ≡ record c { rule = ip_grey_list; whitelist = false }
      → Admission level rule c c'
  refused :
      c'.aborted ≡ true
      → (c'.status ≡ 403) ⊎ (c'.status ≡ 500)
      → rule ≢ ok ip_white_list
      → (rule ≡ ok ip_grey_list → level ≡ 1)
      → Admission level rule c c'

apply_rule-Admission :
    (level : ℕ) (t : IpRuleType) (c : Context)
    → Admission level (ok t) c (apply_rule level t (record c { rule = t }))
unfolding apply_rule
apply_rule-Admission level t c = elim (Bool-cases (str_eq t ip_black_list)) [
  | inl black ↦
      let e = (eq_iff t ip_black_list).0 black in
      refused (rw black refl) (inl (rw black refl)) (ground (arith, eq_iff "blacklist" "whitelist"))
        (λ g. ground (arith, eq_iff "blacklist" "greylist"))
  | inr b ↦ elim (Bool-cases (str_eq t ip_grey_list)) [
    | inl is_grey ↦
        let e = (eq_iff t ip_grey_list).0 is_grey in
        elim (Bool-cases (level == 1)) [
          | inl one ↦
              refused (rw (b, is_grey, one) refl) (inl (rw (b, is_grey, one) refl))
                (ground (arith, eq_iff "greylist" "whitelist")) (λ g. ground arith)
          | inr other ↦ grey (ap ok e) (ground arith) (
              rw (b, is_grey, other)
                (ap (λ (s : IpRuleType). record c { rule = s; whitelist = false }) e))
        ]
    | inr g ↦ elim (Bool-cases (str_eq t ip_white_list)) [
      | inl is_white ↦
          let e = (eq_iff t ip_white_list).0 is_white in
          white (ap ok e) (
            rw (b, g, is_white)
              (ap (λ (s : IpRuleType). record c { rule = s; whitelist = true }) e))
      | inr n ↦
          refused (rw (b, g, n) refl) (inr (rw (b, g, n) refl))
            (λ e. ground (arith, eq_iff t "whitelist")) (λ e. ground (arith, eq_iff t "greylist"))
    ]
  ]
]

-- For every answer of the querier, ACL admits whitelisted addresses, greylisted ones below level
-- 1, and no others; a refused request is aborted with 403 or 500.
pub acl-Admission :
    {W : Type 0} (querier : IpRuleQuerier W) (level : ℕ) (c : Context) (w : W)
    → let answer = querier.query_rule c.request.client_ip w in
      Admission level answer.0 c (acl querier level c w).0 × ((acl querier level c w).1 ≡ answer.1)
unfolding acl
acl-Admission querier level c w = elim (Result-cases (querier.query_rule c.request.client_ip w).0) [
  | inl (t, e) ↦ rw e (apply_rule-Admission level t c, refl)
  | inr (x, e) ↦ rw e (refused refl (inr refl) (λ p. cc) (λ p. absurd (cc)), refl)
]
