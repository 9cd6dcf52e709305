-- ===== src/Middleware/AccessLog/OriginalMethod.antt =====
-- internal/middleware/accesslog.go: the original method in a record.
use ktauth.Prelude.{
  ℕ, ◌≤◌, String, Bool, true, false, List, [], ◌∷◌, ◌++◌, length, str_eq, eq_iff, Bool-cases, ◌≡◌,
  ◌≢◌, ◌↔◌, ◌∙◌, refl, ap, inl, inr, arith, if◌then◌else◌,
}
use ktauth.Gin.{Context}
use ktauth.Middleware.AccessLog.{
  Value, text, append_given, request_attrs, original_attrs, logged_reason, log_attrs,
}
use ktauth.Middleware.AccessLog.Attribution.{values, values-++, ++-nil, values-append_given}

-- One value more where it is given.
abbrev one_more : String → List Value → List Value
one_more v l = if str_eq v "" then l else l ++ (text v ∷ [])

values-append_same :
    (k v : String) (attrs : List (String × Value))
    → str_eq k k ≡ true
    → values k (append_given k v attrs) ≡ one_more v (values k attrs)
values-append_same k v attrs same = elim (Bool-cases (str_eq v "")) [
  | inl empty ↦ rw empty refl
  | inr given ↦ rw (given, values-++ k attrs ((k, text v) ∷ []), same) refl
]

values-if :
    (k : String) (b : Bool) (xs ys : List (String × Value)) {us vs : List Value}
    → values k xs ≡ us
    → values k ys ≡ vs
    → values k (if b then xs else ys) ≡ (if b then us else vs)
values-if k true xs ys e f = e
values-if k false xs ys e f = f

-- The values of the original method in a record.
methods :
    (c : Context) (micros : ℕ)
    → values "originalMethod" (log_attrs c micros) ≡ (
        if str_eq (c.request.header "X-Original-URI") ""
        then one_more
            (c.request.header "X-Forwarded-Method")
            (one_more (c.request.header "X-Original-Method") [])
        else one_more (c.request.header "X-Original-Method") [])
unfolding log_attrs original_attrs request_attrs
methods c micros =
    let k : String = "originalMethod" in
    let head = c.request.header in
    let start = request_attrs c micros in
    let first = append_given "originalURI" (head "X-Original-URI") start in
    let nginx = append_given k (head "X-Original-Method") first in
    let second = append_given "originalURI" (head "X-Forwarded-Uri") nginx in
    let base = original_attrs c start in
    let ruled = append_given "rule" c.rule base in
    let reasoned = ruled ++ (("reason", text (logged_reason c)) ∷ []) in
    let by_nginx : values k nginx ≡ one_more (head "X-Original-Method") [] =
      values-append_same k (head "X-Original-Method") first refl
      ∙ ap (one_more (head "X-Original-Method"))
          (values-append_given k "originalURI" (head "X-Original-URI") start refl) in
    values-append_given k "uuid" c.uuid (append_given "detail" c.detail reasoned) refl
    ∙ values-append_given k "detail" c.detail reasoned refl
    ∙ values-++ k ruled (("reason", text (logged_reason c)) ∷ [])
    ∙ ++-nil (values k ruled)
    ∙ values-append_given k "rule" c.rule base refl
    ∙ values-if k (str_eq (head "X-Original-URI") "")
        (append_given k (head "X-Forwarded-Method") second) nginx
        (values-append_same k (head "X-Forwarded-Method") second refl
          ∙ ap (one_more (head "X-Forwarded-Method"))
              (values-append_given k "originalURI" (head "X-Forwarded-Uri") nginx refl ∙ by_nginx))
        by_nginx

at_most_twice :
    (c : Context) (micros : ℕ) → length (values "originalMethod" (log_attrs c micros)) ≤ 2
at_most_twice c micros = rw (methods c micros) (ground arith)

twice_iff :
    (c : Context) (micros : ℕ)
    → (length (values "originalMethod" (log_attrs c micros)) ≡ 2) ↔ (
        (c.request.header "X-Original-URI" ≡ "")
        × (c.request.header "X-Original-Method" ≢ "")
        × (c.request.header "X-Forwarded-Method" ≢ ""))
twice_iff c micros =
    let head = c.request.header in
    rw (methods c micros) (elim (Bool-cases (str_eq (head "X-Original-URI") "")) [
      | inl missing ↦ elim (Bool-cases (str_eq (head "X-Original-Method") "")) [
        | inl e ↦ elim (Bool-cases (str_eq (head "X-Forwarded-Method") "")) [
          | inl f ↦
              rw (missing, e, f) (λ two. absurd (omega arith), λ p. absurd (p.1 ((eq_iff _ _).0 e)))
          | inr f ↦
              rw (missing, e, f) (λ two. absurd (omega arith), λ p. absurd (p.1 ((eq_iff _ _).0 e)))
        ]
        | inr e ↦ elim (Bool-cases (str_eq (head "X-Forwarded-Method") "")) [
          | inl f ↦
              rw (missing, e, f) (λ two. absurd (omega arith), λ p. absurd (p.2 ((eq_iff _ _).0 f)))
          | inr f ↦
              rw (missing, e, f)
                (
                  λ _. (
                    (eq_iff (head "X-Original-URI") "").0 missing,
                    λ given. ground (arith, eq_iff (head "X-Original-Method") ""),
                    λ given. ground (arith, eq_iff (head "X-Forwarded-Method") ""),
                  ),
                  λ p. refl,
                )
        ]
      ]
      | inr present ↦ elim (Bool-cases (str_eq (head "X-Original-Method") "")) [
        | inl e ↦
            rw (present, e) (λ two. absurd (omega arith), λ p. absurd (p.1 ((eq_iff _ _).0 e)))
        | inr e ↦
            rw (present, e)
              (λ two. absurd (omega arith), λ p. ground (arith, eq_iff (head "X-Original-URI") ""))
      ]
    ])

-- The original method is logged at most twice, and twice exactly if the request names no
-- X-Original-URI, and both an X-Original-Method and an X-Forwarded-Method.
original_method_twice :
    (c : Context) (micros : ℕ)
    → (length (values "originalMethod" (log_attrs c micros)) ≤ 2)
      × ((length (values "originalMethod" (log_attrs c micros)) ≡ 2) ↔ (
          (c.request.header "X-Original-URI" ≡ "")
          × (c.request.header "X-Original-Method" ≢ "")
          × (c.request.header "X-Forwarded-Method" ≢ "")))
original_method_twice c micros = (at_most_twice c micros, twice_iff c micros)
