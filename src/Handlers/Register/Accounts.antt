-- ===== src/Handlers/Register/Accounts.antt =====
-- internal/handler/user_handler.go, RegisterUser: who gets an account.
use ktauth.Prelude.{
  ℕ, String, Bool, true, false, ◌||◌, not, Bool-cases, some, Option-cases, ◌≡◌, ◌⊎◌, refl, inl, inr,
  ap, subst, arith, sym, ◌∙◌, ◌≢◌, none,
}
use ktauth.Errors.{Error}
use ktauth.Effects.{Result, ok, err, Result-cases}
use ktauth.Admin.Rules.{or_empty}
use ktauth.Identity.Email.{Outcome, returned, panicked}
use ktauth.Gin.{Context}
use ktauth.Handlers.EmailCodes.{EmailCodeManager, fail_with, not_configured}
use ktauth.Handlers.Register.{
  Register, RegisterManagers, is_given, create, with_code, by_code, by_token, register_user,
}

module _ {W : Type 0} (h : RegisterManagers W) (bind : Context → Result Register) where
  -- The credential of a request is accepted in w, and checking it leads to w₁: an invitation token that
  -- was consumed, or an email and a code that fit, where no token is given.
  pub data Accepted (req : Register) (w w₁ : W) : Type 0 where
    token_consumed :
        is_given req.token ≡ true
        → h.consume (or_empty req.token) w ≡ (true, w₁)
        → Accepted req w w₁
    code_fits :
        (m : EmailCodeManager W)
        → is_given req.token ≡ false
        → is_given req.email ≡ true
        → is_given req.code ≡ true
        → h.code_manager ≡ some m
        → m.verify_code (or_empty req.email) (or_empty req.code) w ≡ (returned (ok true), w₁)
        → Accepted req w w₁

  -- The worlds that checking a credential may leave.
  pub data Checked (req : Register) (w : W) : W → Type 0 where
    unchecked : Checked req w w
    token_checked : Checked req w (h.consume (or_empty req.token) w).1
    code_checked :
        (m : EmailCodeManager W)
        → h.code_manager ≡ some m
        → Checked req w (m.verify_code (or_empty req.email) (or_empty req.code) w).1

  abbrev pub IsFailure : ℕ → Type 0
  IsFailure code = (code ≡ 400) ⊎ ((code ≡ 401) ⊎ (code ≡ 500))

  pub data Registration (c : Context) (w : W) (c' : Context) (w' : W) : Type 0 where
    registered :
        (req : Register) (w₁ : W) (uuid : String)
        → bind c ≡ ok req
        → Accepted req w w₁
        → h.new_user req.user req.password req.email "user" w₁ ≡ (ok uuid, w')
        → c'.status ≡ 201
        → Registration c w c' w'
    not_created :
        (req : Register) (w₁ : W) (e : Error)
        → bind c ≡ ok req
        → Accepted req w w₁
        → h.new_user req.user req.password req.email "user" w₁ ≡ (err e, w')
        → c'.status ≡ 500
        → Registration c w c' w'
    refused :
        (req : Register)
        → bind c ≡ ok req
        → ((w₁ : W) → ¬ Accepted req w w₁)
        → Checked req w w'
        → IsFailure c'.status
        → Registration c w c' w'
    malformed : (e : Error) → bind c ≡ err e → c'.status ≡ 400 → w' ≡ w → Registration c w c' w'

  module _ (c : Context) (w : W) (req : Register) (bound : bind c ≡ ok req) where
    create-Registration :
        (w₁ : W) (res : Result String) (w₂ : W)
        → Accepted req w w₁
        → h.new_user req.user req.password req.email "user" w₁ ≡ (res, w₂)
        → Registration c w (create h req c w₁).0 (create h req c w₁).1
    unfolding create
    create-Registration w₁ (ok uuid) w₂ a e = rw e (registered req w₁ uuid bound a e refl)
    create-Registration w₁ (err x) w₂ a e = rw e (not_created req w₁ x bound a e refl)

    not_consumed :
        is_given req.token ≡ true
        → (h.consume (or_empty req.token) w).0 ≡ false
        → (w₁ : W) → ¬ Accepted req w w₁
    not_consumed given gone w₁ (token_consumed there e) = absurd (cc (ap (λ (x : Bool × W). x.0) e))
    not_consumed given gone w₁ (code_fits m lacking email code present e) = absurd (cc)

    lacking_data :
        is_given req.token ≡ false
        → (not (is_given req.email) || not (is_given req.code)) ≡ true
        → (w₁ : W) → ¬ Accepted req w w₁
    lacking_data no_token lacking w₁ (token_consumed there e) = absurd (cc)
    lacking_data no_token lacking w₁ (code_fits m without email code present e) =
        absurd (cc (rw (email, code) at lacking))

    no_manager : is_given req.token ≡ false → h.code_manager ≡ none → (w₁ : W) → ¬ Accepted req w w₁
    no_manager no_token missing w₁ (token_consumed there e) = absurd (cc)
    no_manager no_token missing w₁ (code_fits m lacking email code present e) = absurd (cc)

    code_wrong :
        (m : EmailCodeManager W)
        → is_given req.token ≡ false
        → h.code_manager ≡ some m
        → (m.verify_code (or_empty req.email) (or_empty req.code) w).0 ≢ returned (ok true)
        → (w₁ : W) → ¬ Accepted req w w₁
    code_wrong m no_token present wrong w₁ (token_consumed there e) = absurd (cc)
    code_wrong m no_token present wrong w₁ (code_fits m' lacking email code present' e) =
        let same : m' ≡ m = cc in
        absurd (
          wrong (
            ap
              (λ (n : EmailCodeManager W).
                (n.verify_code (or_empty req.email) (or_empty req.code) w).0)
              (sym same)
            ∙ ap (λ (x : Outcome Bool × W). x.0) e))

    by_token-Registration :
        (consumed : Bool) (w₁ : W)
        → is_given req.token ≡ true
        → h.consume (or_empty req.token) w ≡ (consumed, w₁)
        → Registration c w (by_token h req c w).0 (by_token h req c w).1
    unfolding by_token
    by_token-Registration true w₁ given e =
        rw e (create-Registration w₁ _ _ (token_consumed given e) refl)
    by_token-Registration false w₁ given e = rw e (
        refused req bound (not_consumed given (ap (λ (x : Bool × W). x.0) e))
          (subst (Checked req w) (ap (λ (x : Bool × W). x.1) e) token_checked) (inr (inl refl)))

    with_code-Registration :
        (m : EmailCodeManager W) (valid : Outcome Bool) (w₁ : W)
        → (valid ≡ returned (ok true) → Accepted req w w₁)
        → (valid ≢ returned (ok true) → (w₂ : W) → ¬ Accepted req w w₂)
        → Checked req w w₁
        → Registration c w (with_code h req valid c w₁).0 (with_code h req valid c w₁).1
    unfolding with_code fail_with
    with_code-Registration m panicked w₁ good bad after =
        refused req bound (bad (cc)) after (inr (inr refl))
    with_code-Registration m (returned (err e)) w₁ good bad after =
        refused req bound (bad (cc)) after (inr (inr refl))
    with_code-Registration m (returned (ok true)) w₁ good bad after =
        create-Registration w₁ _ _ (good refl) refl
    with_code-Registration m (returned (ok false)) w₁ good bad after =
        refused req bound (bad (cc)) after (inr (inl refl))

    by_code-Registration :
        is_given req.token ≡ false → Registration c w (by_code h req c w).0 (by_code h req c w).1
    unfolding by_code not_configured
    by_code-Registration no_token =
        elim (Bool-cases (not (is_given req.email) || not (is_given req.code))) [
          | inl lacking ↦
              rw lacking (refused req bound (lacking_data no_token lacking) unchecked (inl refl))
          | inr both ↦ elim (Option-cases h.code_manager) [
            | inl missing ↦
                simp (both, missing)
                  (refused req bound (no_manager no_token missing) unchecked (inr (inr refl)))
            | inr (m, present) ↦
                simp (both, present)
                  (with_code-Registration m _ _
                    (λ valid. code_fits m no_token (ground arith) (ground arith) present (
                      ap (λ o. (o, (m.verify_code (or_empty req.email) (or_empty req.code) w).1))
                        valid))
                    (code_wrong m no_token present) (code_checked m present))
          ]
        ]

  -- RegisterUser asks for a new account, of the role user, exactly if an invitation token was
  -- consumed or, where no token is given, an email code fits: it answers 201 if NewUser gives the
  -- account, and otherwise 500, in the world that NewUser's failure leaves. Every other request
  -- fails with 400, 401 or 500 and changes nothing but what the check of a credential does.
  pub register_user-Registration :
      (c : Context) (w : W)
      → Registration c w (register_user h bind c w).0 (register_user h bind c w).1
  unfolding register_user fail_with
  register_user-Registration c w = elim (Result-cases (bind c)) [
    | inr (e, bad) ↦ rw bad (malformed e bad refl refl)
    | inl (req, bound) ↦ elim (Bool-cases (is_given req.token)) [
      | inl given ↦ rw (bound, given) (by_token-Registration c w req bound _ _ given refl)
      | inr no_token ↦ rw (bound, no_token) (by_code-Registration c w req bound no_token)
    ]
  ]
