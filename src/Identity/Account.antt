-- ===== src/Identity/Account.antt =====
-- internal/service/identity/account.go and internal/crypto/password.go; bcrypt is a parameter.
use Prim.Native.String.{◌++◌}
use ktauth.Prelude.{String, Bool, true, false, Option, none, some}
use ktauth.Errors.{Error, errorf, message}
use ktauth.Effects.{ok, err, on, Op}
use ktauth.Redis.{Env}
use ktauth.Model.{User}

-- bcrypt.GenerateFromPassword, which draws a salt, and CompareHashAndPassword, whose error is nil
-- where they match.
pub record Bcrypt (W : Type 0) : Type 0 where
  pub generate : String → Op W String
  pub compare : String → String → Option Error

pub record UserStore (W : Type 0) : Type 0 where
  pub new_user : String → String → String → Option String → String → Op W (Unit {0})
  pub get_user_by_name : String → Op W User
  pub update_user : String → String → String → Option String → String → Op W (Unit {0})

module _ {W : Type 0} (bcrypt : Bcrypt W) where
  -- HashPassword
  unfoldable pub hash_password : String → Op W String
  hash_password password w =
      let (hash, w₁) = bcrypt.generate password w in (on hash (λ e. err e) (λ h. ok h), w₁)

  -- VerifyPassword
  unfoldable pub verify_password : String → String → Bool
  verify_password hash password = elim (bcrypt.compare hash password) [
    | none ↦ true
    | some e ↦ false
  ]

module _ {W : Type 0} (bcrypt : Bcrypt W) (env : Env W) (store : UserStore W) where
  -- NewUser: the identifier of the account
  unfoldable pub new_user : String → String → Option String → String → Op W String
  unfolding hash_password
  new_user name password email role w =
      let (uuid, w₁) = env.new_uuid w in
      let (hash, w₂) = hash_password bcrypt password w₁ in
      on hash (λ e. (err (errorf ("Hash error: " ++ message e)), w₂))
        (λ h.
          let (stored, w₃) = store.new_user uuid name h email role w₂ in
          (on stored (λ e. err e) (λ u. ok uuid), w₃))

  -- GetUserByName
  unfoldable pub get_user_by_name : String → Op W User
  get_user_by_name name w = store.get_user_by_name name w

  -- UpdateUser
  unfoldable pub update_user : String → String → String → Option String → String → Op W (Unit {0})
  unfolding hash_password
  update_user uuid name password email role w =
      let (hash, w₁) = hash_password bcrypt password w in
      on hash (λ e. (err e, w₁)) (λ h. store.update_user uuid name h email role w₁)
