-- ===== src/Model.antt =====
-- internal/model: the rule types, an IP rule and a user.
use ktauth.Prelude.{ℕ, String, Bool, Option}
use ktauth.Net.Bytes.{IpNet}

-- IPRuleType: a string, which need not be one of the three constants.
abbrev pub IpRuleType : Type 0
IpRuleType = String

abbrev pub ip_white_list : IpRuleType
ip_white_list = "whitelist"

abbrev pub ip_black_list : IpRuleType
ip_black_list = "blacklist"

abbrev pub ip_grey_list : IpRuleType
ip_grey_list = "greylist"

pub record Ip : Type 0 where
  pub id : ℕ
  pub version : ℕ
  pub ip_range : IpNet
  pub is_whitelist : Bool
  pub create_at : ℕ
  pub update_at : ℕ
  pub note : Option String

pub record User : Type 0 where
  pub uuid : String
  pub name : String
  pub password_hash : String
  pub email : Option String
  pub role : String
