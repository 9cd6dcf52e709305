-- ===== src/Repository/Tokens/Stock.antt =====
-- internal/repository/token_repo.go: the set of invitation tokens under every operation.
use ktauth.Prelude.{
  ℕ, zero, suc, ◌<◌, String, List, length, leb, Bool-cases, ◌≡◌, ◌⊎◌, ◌∙◌, refl, sym, ap, inl, inr,
  subst, arith,
}
use ktauth.Errors.{Error}
use ktauth.Effects.{Result, err, Result-cases}
use ktauth.Redis.{Redis, Env}
use ktauth.Redis.Laws.{View, Same, TimeLaws, elements}
use ktauth.Redis.Sets.{added, Changed, Unchanged, SetLaws}
use ktauth.Repository.Tokens.{tokens_key, new_tokens, add_tokens, restock}

-- The number of tokens that the set holds now.
abbrev pub stock : {W : Type 0} → View W → W → ℕ
stock v w = length (elements (v.live w (v.clock w) tokens_key))

-- The tokens that a Restock draws.
abbrev pub drawn : {W : Type 0} → Redis W → Env W → W → List String
drawn r env w = (new_tokens env 10 (r.scard tokens_key w).1).0

module _ {W : Type 0} (r : Redis W) (env : Env W) (v : View W) where
  open v use {live, clock}

  -- What a Restock that began at w has done: it failed and changed no token, or it found fewer than
  -- ten tokens and ten more are in the set, whatever it answered.
  pub data Restocked (w : W) (tokens : List String) : Result (Unit {0}) × W → Type 0 where
    refused :
        {w' : W} (e : Error)
        → clock w' ≡ clock w
        → Unchanged r env v tokens_key w w'
        → Restocked w tokens (err e, w')
    stocked :
        {w' : W} (answer : Result (Unit {0}))
        → stock v w < 10
        → length tokens ≡ 10
        → clock w' ≡ clock w
        → Changed r env v tokens_key (added tokens) w w'
        → Restocked w tokens (answer, w')

module _ {W : Type 0} {r : Redis W} {env : Env W} {v : View W} (time : TimeLaws r env v)
    (l : SetLaws r env v) where
  open v use {live, clock}

  pub length-new_tokens : (n : ℕ) (w : W) → length (new_tokens env n w).0 ≡ n
  unfolding new_tokens
  length-new_tokens zero w = refl
  length-new_tokens (suc n) w = ap suc (length-new_tokens n (env.new_uuid w).1)

  new_tokens-Same : (n : ℕ) (w : W) → Same r env v w (new_tokens env n w).1
  unfolding new_tokens
  new_tokens-Same zero w = record { same_clock = refl; same_live = λ t k. refl }
  new_tokens-Same (suc n) w =
      let w₁ = (env.new_uuid w).1 in
      let first = time.uuid-Same w in
      let rest = new_tokens-Same n w₁ in
      record {
        same_clock = rest.same_clock ∙ first.same_clock;
        same_live = λ t k. rest.same_live t k ∙ first.same_live t k;
      }

  -- SADD of ten new tokens: they are in the set, or it failed and changed nothing.
  pub add_tokens-cases :
      (w : W)
      → let out = add_tokens r env w in
        (clock out.1 ≡ clock w)
        × (Changed r env v tokens_key (added (new_tokens env 10 w).0) w out.1
            ⊎ ((e : Error) × (out.0 ≡ err e) × Unchanged r env v tokens_key w out.1))
  unfolding add_tokens
  add_tokens-cases w =
      let (tokens, w₁) = new_tokens env 10 w in
      let same = new_tokens-Same 10 w in
      (
        l.sadd-clock tokens_key tokens w₁ ∙ same.same_clock,
        elim (l.sadd-cases tokens_key tokens w₁) [
          | inl changed ↦ inl λ t later.
              changed t (omega (arith, same.same_clock))
              ∙ rw
                  (
                    same.same_clock,
                    same.same_live (clock w) tokens_key,
                    same.same_live t tokens_key,
                  )
                  refl
          | inr (e, failed, unchanged) ↦ inr (
            e,
            failed,
            λ t later. unchanged t (omega (arith, same.same_clock)) ∙ same.same_live t tokens_key,
          )
        ],
      )

  -- The same behind a read, in a world like w.
  add_tokens-Restocked :
      (w w₁ : W)
      → Same r env v w w₁
      → stock v w < 10
      → Restocked r env v w (new_tokens env 10 w₁).0 (add_tokens r env w₁)
  add_tokens-Restocked w w₁ first few =
      let (same, cases) = add_tokens-cases w₁ in
      let ended = same ∙ first.same_clock in
      elim cases [
        | inl changed ↦ Restocked.stocked _ few (length-new_tokens 10 w₁) ended λ t later.
            changed t (omega (arith, first.same_clock))
            ∙ rw
                (
                  first.same_clock,
                  first.same_live (clock w) tokens_key,
                  first.same_live t tokens_key,
                )
                refl
        | inr (e, failed, unchanged) ↦
            subst (λ a. Restocked r env v w (new_tokens env 10 w₁).0 (a, (add_tokens r env w₁).1))
              (sym failed)
              (Restocked.refused e ended λ t later.
                unchanged t (omega (arith, first.same_clock)) ∙ first.same_live t tokens_key)
      ]

  pub restock-Restocked : (w : W) → Restocked r env v w (drawn r env w) (restock r env w)
  unfolding restock
  restock-Restocked w =
      let first = l.scard-Same tokens_key w in
      elim (Result-cases (r.scard tokens_key w).0) [
        | inr (e, failed) ↦
            rw failed (Restocked.refused _ first.same_clock λ t later. first.same_live t tokens_key)
        | inl (n, size) ↦
            let counted = l.scard-eq tokens_key n w size in
            elim (Bool-cases (leb 10 n)) [
              | inl full ↦
                  rw (size, full)
                    (Restocked.refused _ first.same_clock λ t later. first.same_live t tokens_key)
              | inr few ↦
                  let short : stock v w < 10 = ground arith in
                  rw (size, few) (add_tokens-Restocked w (r.scard tokens_key w).1 first short)
            ]
      ]
