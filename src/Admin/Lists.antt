-- ===== src/Admin/Lists.antt =====
-- internal/service/admin/manage_user.go: the users as an administrator sees them, without hashes.
use ktauth.Prelude.{String, List, map}
use ktauth.Effects.{ok, err, on, Op}
use ktauth.Model.{User}
use ktauth.Admin.Rules.{or_empty}

pub record UserReader (W : Type 0) : Type 0 where
  pub list_users : Op W (List User)

pub record UserResponse : Type 0 where
  pub id : String
  pub name : String
  pub email : String
  pub role : String

pub user_response : User → UserResponse
user_response user = record {
  id = user.uuid;
  name = user.name;
  email = or_empty user.email;
  role = user.role;
}

-- ListUsers
unfoldable pub list_users : {W : Type 0} → UserReader W → Op W (List UserResponse)
unfolding user_response
list_users reader w =
    let (rows, w₁) = reader.list_users w in
    (on rows (λ e. err e) (λ users. ok (map user_response users)), w₁)
