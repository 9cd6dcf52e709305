-- ===== src/Handlers/Tokens.antt =====
-- internal/handler/token_handler.go: the invitation tokens, for administrators.
use ktauth.Prelude.{String, List, [], ◌∷◌, some}
use ktauth.Errors.{message}
use ktauth.Effects.{on, Op}
use ktauth.Gin.{json, strs, plain, respond, Handler}
use ktauth.Logctx.{set_reason_detail, restock_tokens_failed, flush_tokens_failed}

-- AdminTokenService of internal/service/admin/manage_token.go, whose methods pass each call on to the
-- store of tokens.
pub record TokenManager (W : Type 0) : Type 0 where
  pub restock : Op W (Unit {0})
  pub flush_tokens : Op W (Unit {0})
  pub get_token : Op W String
  pub get_tokens : Op W (List String)

module _ {W : Type 0} (manager : TokenManager W) where
  -- Restock
  unfoldable pub restock : Handler W
  unfolding set_reason_detail
  restock c w =
      let (done, w₁) = manager.restock w in
      (
        on done
            (λ e.
              respond 500 (plain (message e)) (set_reason_detail restock_tokens_failed (some e) c))
            (λ u. respond 201 (plain "Restock OK!") c),
        w₁,
      )

  -- FlushTokens
  unfoldable pub flush_tokens : Handler W
  unfolding set_reason_detail
  flush_tokens c w =
      let (done, w₁) = manager.flush_tokens w in
      (
        on done
            (λ e.
              respond 500 (plain (message e)) (set_reason_detail flush_tokens_failed (some e) c))
            (λ u. respond 200 (plain "OK") c),
        w₁,
      )

  -- GetToken answers 200 with the text of the error, too.
  unfoldable pub get_token : Handler W
  get_token c w =
      let (token, w₁) = manager.get_token w in
      (on token (λ e. respond 200 (plain (message e)) c) (λ t. respond 200 (plain t) c), w₁)

  -- GetTokens
  unfoldable pub get_tokens : Handler W
  get_tokens c w =
      let (tokens, w₁) = manager.get_tokens w in
      (
        on tokens (λ e. respond 200 (plain (message e)) c)
            (λ l. respond 200 (json (("tokens", strs l) ∷ [])) c),
        w₁,
      )
