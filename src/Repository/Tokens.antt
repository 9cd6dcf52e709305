-- ===== src/Repository/Tokens.antt =====
-- internal/repository/token_repo.go: the invitation tokens, a set in Redis.
pub mod SingleUse
pub mod Stock
pub mod Bound
pub mod Accepted
use ktauth.Prelude.{
  ℕ, zero, suc, String, Bool, true, false, List, [], ◌∷◌, ◌==◌, leb, if◌then◌else◌,
}
use ktauth.Errors.{errorf}
use ktauth.Effects.{err, on, Op}
use ktauth.Redis.{Redis, Env}

abbrev pub tokens_key : String
tokens_key = "admin:tokens"

module _ {W : Type 0} (env : Env W) where
  -- for range numRestock { tokens = append(tokens, uuid.NewString()) }
  unfoldable pub new_tokens : ℕ → W → List String × W
  new_tokens zero w = ([], w)
  new_tokens (suc n) w =
      let (token, w₁) = env.new_uuid w in let (tokens, w₂) = new_tokens n w₁ in (token ∷ tokens, w₂)

module _ {W : Type 0} (r : Redis W) where
  -- What Restock does once SCARD has answered fewer than ten.
  unfoldable pub add_tokens : Env W → Op W (Unit {0})
  unfolding new_tokens
  add_tokens env w = let (tokens, w₁) = new_tokens env 10 w in r.sadd tokens_key tokens w₁

  -- Restock
  unfoldable pub restock : Env W → Op W (Unit {0})
  unfolding add_tokens
  restock env w =
      let (size, w₁) = r.scard tokens_key w in
      on size (λ e. (err (errorf "Redis scard error"), w₁))
        (λ n. if leb 10 n then (err (errorf "No need to restock"), w₁) else add_tokens env w₁)

  -- Consume
  unfoldable pub consume : String → W → Bool × W
  consume token w =
      let (removed, w₁) = r.srem tokens_key token w in
      (on removed (λ e. false) (λ n. if n == 0 then false else true), w₁)

  -- ListAll
  unfoldable pub list_all : Op W (List String)
  list_all w = r.smembers tokens_key w

  -- GetOne
  unfoldable pub get_one : Op W String
  get_one w =
      let (size, w₁) = r.scard tokens_key w in
      on size (λ e. (err (errorf "Error when getting scard..."), w₁))
        (λ n.
          if n == 0
          then (err (errorf "No tokens, try to restock..."), w₁)
          else r.srandmember tokens_key w₁)

  -- FlushAll
  unfoldable pub flush_all : Op W (Unit {0})
  flush_all w = r.del tokens_key w
