-- ===== src/Admin/ManageTokens.antt =====
-- internal/service/admin/manage_token.go: the invitation tokens, for an administrator.
use ktauth.Prelude.{String, List}
use ktauth.Effects.{Op}

pub record TokenStore (W : Type 0) : Type 0 where
  pub restock : Op W (Unit {0})
  pub flush_all : Op W (Unit {0})
  pub get_one : Op W String
  pub list_all : Op W (List String)

module _ {W : Type 0} (ts : TokenStore W) where
  -- Restock
  abbrev pub restock : Op W (Unit {0})
  restock w = ts.restock w

  -- FlushTokens
  abbrev pub flush_tokens : Op W (Unit {0})
  flush_tokens w = ts.flush_all w

  -- GetToken
  abbrev pub get_token : Op W String
  get_token w = ts.get_one w

  -- GetTokens
  abbrev pub get_tokens : Op W (List String)
  get_tokens w = ts.list_all w
