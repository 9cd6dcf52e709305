-- ===== src/Repository/Tokens/SingleUse.antt =====
-- internal/repository/token_repo.go: the use of an invitation token.
use ktauth.Prelude.{
  ◌≤◌, ℕ, String, Bool, true, false, ◌≡◌, ◌≢◌, ◌∙◌, inl, inr, ap, arith, Bool-cases,
}
use ktauth.Effects.{ok, Result-cases}
use ktauth.Redis.{Redis, Env}
use ktauth.Redis.Laws.{View, elements, contains}
use ktauth.Redis.Sets.{SetLaws, srem-absent}
use ktauth.Repository.Tokens.{tokens_key, consume}

module _ {W : Type 0} {r : Redis W} {env : Env W} {v : View W} (l : SetLaws r env v) where
  open v use {live, clock}

  -- A token is accepted exactly if SREM removed it.
  consume-removed :
      (token : String) (w : W) → (consume r token w).0 ≡ true → (r.srem tokens_key token w).0 ≡ ok 1
  unfolding consume
  consume-removed token w accepted = elim (Result-cases (r.srem tokens_key token w).0) [
    | inr (x, failed) ↦ absurd (cc (rw failed at accepted))
    | inl (n, done) ↦
        let count = l.srem-eq tokens_key token n w done in
        let positive : n ≢ 0 = λ z. absurd (cc (rw (done, z) at accepted)) in
        done ∙ ap ok (ground arith)
  ]

  -- Whether the set of tokens that w leads to has a token at a time.
  abbrev pub offers : W → ℕ → String → Bool
  offers w t token = contains token (elements (live w t tokens_key))

  -- Once Consume has accepted an invitation token, it accepts it at no later time, whatever
  -- happens to the other tokens, as long as nothing adds this one to the set again; given the
  -- documented behaviour of the Redis commands.
  pub token_once :
      (token : String) (w w₂ : W)
      → (consume r token w).0 ≡ true
      → clock (consume r token w).1 ≤ clock w₂
      → (offers w₂ (clock w₂) token ≡ true → offers (consume r token w).1 (clock w₂) token ≡ true)
      → (consume r token w₂).0 ≡ false
  unfolding consume
  token_once token w w₂ accepted later not_added = elim (Bool-cases (consume r token w₂).0) [
    | inr refused ↦ refused
    | inl again ↦
        let removed = consume-removed token w accepted in
        let count = l.srem-eq tokens_key token 1 w₂ (consume-removed token w₂ again) in
        let before = l.srem-clock tokens_key token w in
        let gone = srem-absent l tokens_key token 1 w (clock w₂) removed (omega arith) in
        elim (Bool-cases (offers w₂ (clock w₂) token)) [
          | inl there ↦ absurd (let back = not_added there in cc)
          | inr absent ↦ absurd (let none_left = rw absent at count in omega arith)
        ]
  ]
