-- ===== src/Repository/Tokens/Accepted.antt =====
-- internal/repository/token_repo.go: a new invitation token and its use.
use ktauth.Prelude.{
  ℕ, ◌≤◌, String, Option, none, some, List, [], ◌≡◌, true, false, ◌∙◌, refl, ap, arith,
}
use ktauth.Effects.{Result, ok}
use ktauth.Redis.{Redis, Env}
use ktauth.Redis.Laws.{Value, View, Untouched, TimeLaws, elements, contains}
use ktauth.Redis.Sets.{added, union, Changed, SetLaws, elements-set_value, contains-union}
use ktauth.Repository.Tokens.{tokens_key, restock, consume}
use ktauth.Repository.Tokens.Stock.{drawn, Restocked, restock-Restocked}
use ktauth.Repository.Tokens.SingleUse.{token_once, offers}
use ktauth.Repository.Tokens.Bound.{Reached, history-IsStocked}

contains-added :
    (token : String) (ms : List String) (o : Option Value)
    → contains token ms ≡ true
    → contains token (elements (added ms o o)) ≡ true
contains-added token ms none new =
    rw (elements-set_value (union ms [])) (contains-union token ms [] new)
contains-added token ms (some old) new =
    rw (elements-set_value (union ms (elements (some old))))
      (contains-union token ms (elements (some old)) new)

module _ {W : Type 0} {r : Redis W} {env : Env W} {v : View W} (time : TimeLaws r env v)
    (l : SetLaws r env v) where
  open v use {live, clock}

  stocked_members :
      (w : W) (tokens : List String) (out : Result (Unit {0}) × W)
      → Restocked r env v w tokens out
      → out.0 ≡ ok tt
      → (clock out.1 ≡ clock w) × Changed r env v tokens_key (added tokens) w out.1
  stocked_members w tokens (_, w') (Restocked.refused e same unchanged) done = absurd (cc)
  stocked_members w tokens (_, w') (Restocked.stocked answer few ten same changed) done =
      (same, changed)

  new_token_accepted :
      (token : String) (k n : ℕ) (w w₂ : W) (p : ℕ)
      → Reached r env v k w p
      → (restock r env w).0 ≡ ok tt
      → contains token (drawn r env w) ≡ true
      → Untouched r env v tokens_key (restock r env w).1 w₂
      → (r.srem tokens_key token w₂).0 ≡ ok n
      → (consume r token w₂).0 ≡ true
  unfolding consume
  new_token_accepted token k n w w₂ p reached done new kept answered =
      let good = history-IsStocked time l k w p reached in
      let (same, changed) =
        stocked_members w (drawn r env w) (restock r env w) (restock-Restocked time l w) done in
      let later : clock w ≤ clock w₂ = omega (arith, kept.later, same) in
      let held : live w₂ (clock w₂) tokens_key
          ≡ added (drawn r env w) (live w (clock w) tokens_key) (live w (clock w) tokens_key) =
        kept.same (clock w₂) (omega arith)
        ∙ changed (clock w₂) later
        ∙ ap (added (drawn r env w) (live w (clock w) tokens_key))
            (good.lasting (clock w₂) later) in
      let offered : contains token (elements (live w₂ (clock w₂) tokens_key)) ≡ true =
        rw held (contains-added token (drawn r env w) (live w (clock w) tokens_key) new) in
      let counted : n ≡ 1 = l.srem-eq tokens_key token n w₂ answered ∙ rw offered refl in
      rw (answered, counted) refl

  -- Once Restock has answered without an error, Consume accepts each of the tokens that it drew,
  -- if nothing has changed the set since and SREM does not fail; and then it accepts that token
  -- at no later time, whatever happens to the other tokens, as long as nothing adds this one
  -- again. This is after any history of the operations from an empty set, overlapping Restocks
  -- included; given the documented behaviour of the Redis commands.
  pub new_token_once :
      (token : String) (k n : ℕ) (w w₂ w₃ : W) (p : ℕ)
      → Reached r env v k w p
      → (restock r env w).0 ≡ ok tt
      → contains token (drawn r env w) ≡ true
      → Untouched r env v tokens_key (restock r env w).1 w₂
      → (r.srem tokens_key token w₂).0 ≡ ok n
      → clock (consume r token w₂).1 ≤ clock w₃
      → (offers l w₃ (clock w₃) token ≡ true
          → offers l (consume r token w₂).1 (clock w₃) token ≡ true)
      → ((consume r token w₂).0 ≡ true) × ((consume r token w₃).0 ≡ false)
  new_token_once token k n w w₂ w₃ p reached done new kept answered later not_added =
      let accepted = new_token_accepted token k n w w₂ p reached done new kept answered in
      (accepted, token_once l token w₂ w₃ accepted later not_added)
