-- ===== src/Jwt.antt =====
-- internal/auth/jwt.go: signing and parsing tokens. The package golang-jwt with the secret is a
-- parameter.
use ktauth.Prelude.{ℕ, ◌+◌, ◌*◌, String, Option, none, some}
use ktauth.Errors.{errorf}
use ktauth.Effects.{Result, ok, err, on, Op}
use ktauth.Redis.{Env}

-- Claims with the registered claims that SignToken sets, times in milliseconds.
pub record Claims : Type 0 where
  pub uuid : String
  pub name : String
  pub role : String
  pub id : String
  pub issuer : String
  pub issued_at : ℕ
  pub not_before : ℕ
  pub expires_at : ℕ

pub record Jwt : Type 0 where
  -- token.SignedString(mySecret) of HS256 claims
  pub sign : Claims → Result String
  -- jwt.ParseWithClaims at a time; none is a token whose claims are of another type
  pub parse : ℕ → String → Result (Option Claims)

-- 168 hours
abbrev pub token_ttl : ℕ
token_ttl = 168 * 3600000

module _ {W : Type 0} (jwt : Jwt) (env : Env W) where
  unfoldable pub new_claims : String → String → String → String → W → Claims
  new_claims uid name role jti w = record {
    uuid = uid;
    name = name;
    role = role;
    id = jti;
    issuer = "ktauth";
    issued_at = env.now_ms w;
    not_before = env.now_ms w;
    expires_at = env.now_ms w + token_ttl;
  }

  -- SignToken: the token and its jti
  unfoldable pub sign_token : String → String → String → Op W (String × String)
  unfolding new_claims
  sign_token uid name role w =
      let (jti, w₁) = env.new_uuid w in
      (on (jwt.sign (new_claims uid name role jti w₁)) (λ e. err e) (λ token. ok (token, jti)), w₁)

  -- ParseToken
  unfoldable pub parse_token : String → W → Result Claims
  parse_token token w =
      on (jwt.parse (env.now_ms w) token) (λ e. err e)
        (λ claims. elim claims [ some c ↦ ok c | none ↦ err (errorf "Failed to parse token") ])
