-- ===== src/Middleware/AccessLog/Attribution.antt =====
-- internal/middleware/accesslog.go: the record of an answer and its reason.
use ktauth.Prelude.{
  ℕ, ◌≤◌, ◌<◌, String, false, Option, none, some, List, [], ◌∷◌, ◌++◌, ltb, leb, ◌==◌, str_eq,
  eq_iff, Bool-cases, ◌≡◌, ◌≢◌, ◌↔◌, ◌∙◌, refl, ap, inl, inr, arith, if◌then◌else◌,
}
use ktauth.Gin.{Context}
use ktauth.Middleware.AccessLog.{
  Value, text, error, warn, LogRecord, append_given, request_attrs, original_attrs, logged_reason,
  log_attrs, access_log,
}

-- What a record says under a key, in order.
abbrev pub values : String → List (String × Value) → List Value
values k [] = []
values k ((j, v) ∷ attrs) = let rest = values k attrs in if str_eq j k then v ∷ rest else rest

pub values-++ :
    (k : String) (xs ys : List (String × Value)) → values k (xs ++ ys) ≡ values k xs ++ values k ys
values-++ k [] ys = refl
values-++ k ((j, v) ∷ xs) ys = elim (Bool-cases (str_eq j k)) [
  | inl same ↦ rw same (ap (λ l. v ∷ l) (values-++ k xs ys))
  | inr other ↦ rw other (values-++ k xs ys)
]

pub ++-nil : {A : Type 0} (xs : List A) → xs ++ [] ≡ xs
++-nil [] = refl
++-nil (x ∷ xs) = ap (λ l. x ∷ l) (++-nil xs)

-- An attribute under another key changes nothing.
pub values-append_given :
    (k key v : String) (attrs : List (String × Value))
    → str_eq key k ≡ false
    → values k (append_given key v attrs) ≡ values k attrs
values-append_given k key v attrs other = elim (Bool-cases (str_eq v "")) [
  | inl empty ↦ rw empty refl
  | inr given ↦ rw (given, values-++ k attrs ((key, text v) ∷ []), other) (++-nil (values k attrs))
]

values-original :
    (k : String) (c : Context) (attrs : List (String × Value))
    → str_eq "originalURI" k ≡ false
    → str_eq "originalMethod" k ≡ false
    → values k (original_attrs c attrs) ≡ values k attrs
unfolding original_attrs
values-original k c attrs no_uri no_method =
    let uri = c.request.header "X-Original-URI" in
    let nginx =
      append_given "originalMethod" (c.request.header "X-Original-Method")
        (append_given "originalURI" uri attrs) in
    let first : values k nginx ≡ values k attrs =
      values-append_given k "originalMethod" (c.request.header "X-Original-Method")
        (append_given "originalURI" uri attrs) no_method
      ∙ values-append_given k "originalURI" uri attrs no_uri in
    elim (Bool-cases (str_eq uri "")) [
      | inl missing ↦
          ap
            (λ b. values k (
              if b
              then append_given "originalMethod" (c.request.header "X-Forwarded-Method")
                  (append_given "originalURI" (c.request.header "X-Forwarded-Uri") nginx)
              else nginx))
            missing
          ∙ values-append_given k "originalMethod" (c.request.header "X-Forwarded-Method")
              (append_given "originalURI" (c.request.header "X-Forwarded-Uri") nginx) no_method
          ∙ values-append_given k "originalURI" (c.request.header "X-Forwarded-Uri") nginx no_uri
          ∙ first
      | inr present ↦
          ap
            (λ b. values k (
              if b
              then append_given "originalMethod" (c.request.header "X-Forwarded-Method")
                  (append_given "originalURI" (c.request.header "X-Forwarded-Uri") nginx)
              else nginx))
            present
          ∙ first
    ]

values-reason :
    (c : Context) (micros : ℕ) → values "reason" (log_attrs c micros) ≡ text (logged_reason c) ∷ []
unfolding log_attrs request_attrs
values-reason c micros =
    let base = original_attrs c (request_attrs c micros) in
    let ruled = append_given "rule" c.rule base in
    let reasoned = ruled ++ (("reason", text (logged_reason c)) ∷ []) in
    values-append_given "reason" "uuid" c.uuid (append_given "detail" c.detail reasoned) refl
    ∙ values-append_given "reason" "detail" c.detail reasoned refl
    ∙ values-++ "reason" ruled (("reason", text (logged_reason c)) ∷ [])
    ∙ ap (λ l. l ++ (text (logged_reason c) ∷ []))
        (values-append_given "reason" "rule" c.rule base refl
          ∙ values-original "reason" c (request_attrs c micros) refl refl)

reason-given : (c : Context) → logged_reason c ≢ ""
unfolding logged_reason
reason-given c none_given = elim (Bool-cases (str_eq c.reason "")) [
  | inl empty ↦ elim (Bool-cases (c.status == 404)) [
    | inl missing ↦
        absurd
          (let e = rw (empty, missing) at none_given in ground (arith, eq_iff "route_not_found" ""))
    | inr other ↦
        absurd (let e = rw (empty, other) at none_given in ground (arith, eq_iff "unattributed" ""))
  ]
  | inr given ↦ absurd (let e = rw given at none_given in ground (arith, eq_iff c.reason ""))
]

-- The record of an answer: none below 400, and otherwise one with exactly one reason, which is not
-- empty and is the recorded one where there is one.
pub data Logged (c : Context) (out : Option LogRecord) : Type 0 where
  silent : c.status < 400 → out ≡ none → Logged c out
  logged :
      (r : LogRecord) (reason : String)
      → 400 ≤ c.status
      → out ≡ some r
      → (r.level ≡ error) ↔ (500 ≤ c.status)
      → values "reason" r.attrs ≡ text reason ∷ []
      → reason ≢ ""
      → (c.reason ≢ "" → reason ≡ c.reason)
      → Logged c out

reason-kept : (c : Context) → c.reason ≢ "" → logged_reason c ≡ c.reason
unfolding logged_reason
reason-kept c given = elim (Bool-cases (str_eq c.reason "")) [
  | inl empty ↦ absurd (given ((eq_iff c.reason "").0 empty))
  | inr other ↦ rw other refl
]

-- AccessLog writes nothing for an answer below 400, and one record for any other, an error from
-- 500 on and else a warning, which names exactly one reason that is not empty: the recorded one,
-- where one was recorded.
pub access_log-Logged : (c : Context) (micros : ℕ) → Logged c (access_log c micros)
unfolding access_log
access_log-Logged c micros = elim (Bool-cases (ltb c.status 400)) [
  | inl below ↦ silent (ground arith) (rw below refl)
  | inr failed ↦ elim (Bool-cases (leb 500 c.status)) [
    | inl server ↦
        logged (record { level = error; title = "request failed"; attrs = log_attrs c micros })
          (logged_reason c) (ground arith) (simp (failed, server) refl)
          (λ _. ground arith, λ _. refl) (values-reason c micros) (reason-given c) (reason-kept c)
    | inr client ↦
        logged (record { level = warn; title = "request rejected"; attrs = log_attrs c micros })
          (logged_reason c) (ground arith) (simp (failed, client) refl)
          (λ e. absurd (cc), λ high. absurd (ground arith)) (values-reason c micros)
          (reason-given c) (reason-kept c)
  ]
]
