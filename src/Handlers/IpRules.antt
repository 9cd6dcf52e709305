-- ===== src/Handlers/IpRules.antt =====
-- internal/handler/admin_handler.go: the IP rules and the users.
pub mod Replies
pub mod Deletions
use Prim.Native.String.{◌++◌}
use ktauth.Prelude.{
  ℕ, String, Bool, true, false, ◌||◌, not, List, [], ◌∷◌, Option, none, some, str_eq, if◌then◌else◌,
}
use ktauth.Errors.{Error, message, as_ip_error, is_ip_exist, is_ip_not_found}
use ktauth.Effects.{Result, on, Op}
use ktauth.Admin.Rules.{TextOp, IpResponse}
use ktauth.Admin.Lists.{UserResponse}
use ktauth.Gin.{Context, json, rules, users, plain, respond, Handler}
use ktauth.Logctx.{
  set_reason, set_reason_detail, invalid_body, invalid_ip, ip_rule_exists, ip_rule_not_found,
  add_ip_rule_failed, list_ip_rules_failed, delete_ip_rule_failed, list_users_failed,
}

pub record IpRuleManager (W : Type 0) : Type 0 where
  pub add_rule : String → Bool → Option String → TextOp W
  pub list_rules : Option ℕ → Option Bool → Op W (List IpResponse)
  pub del_rule : String → TextOp W

pub record UserManager (W : Type 0) : Type 0 where
  pub list_users : Op W (List UserResponse)

pub record Rule : Type 0 where
  pub ip : String
  pub note : Option String
  pub is_white_list : Option Bool

abbrev is_false : Option Bool → Bool
is_false none = false
is_false (some b) = not b

-- A ban by the query or by the body; anything else is a whitelisting.
pub asks_white : Rule → Context → Bool
asks_white req c =
    if not (str_eq (c.request.query "ban") "") || is_false req.is_white_list then false else true

pub add_failed : Error → Context → Context
unfolding set_reason set_reason_detail as_ip_error
add_failed e c =
    if as_ip_error e
    then respond 400 (plain (message e)) (set_reason_detail invalid_ip (some e) c)
    else if is_ip_exist e
    then respond 400 (plain (message e)) (set_reason ip_rule_exists c)
    else respond 500 (plain (message e)) (set_reason_detail add_ip_rule_failed (some e) c)

pub del_failed : Error → Context → Context
unfolding set_reason set_reason_detail as_ip_error
del_failed e c =
    if as_ip_error e
    then respond 400 (plain (message e)) (set_reason_detail invalid_ip (some e) c)
    else if is_ip_not_found e
    then respond 400 (plain (message e)) (set_reason ip_rule_not_found c)
    else respond 500 (plain (message e)) (set_reason_detail delete_ip_rule_failed (some e) c)

-- The filters of a listing; other values of the query mean no filter.
pub version_filter : String → Option ℕ
version_filter s = if str_eq s "4" then some 4 else if str_eq s "6" then some 6 else none

pub type_filter : String → Option Bool
type_filter s =
    if str_eq s "white" then some true else if str_eq s "black" then some false else none

module _ {W : Type 0} (manager : IpRuleManager W) (bind : Context → Result Rule) where
  bad_body : Error → Context → Context
  unfolding set_reason_detail
  bad_body e c = respond 400 (plain (message e)) (set_reason_detail invalid_body (some e) c)

  -- AddRule
  unfoldable pub add_rule : Handler W
  unfolding bad_body add_failed asks_white
  add_rule c w =
      on (bind c) (λ e. (bad_body e c, w))
        (λ req.
          let ((cidr, error), w₁) = manager.add_rule req.ip (asks_white req c) req.note w in
          (
            elim error [
              | some e ↦ add_failed e c
              | none ↦ respond 200 (plain ("CIDR " ++ (cidr ++ " added."))) c
            ],
            w₁,
          ))

  -- DelRule
  unfoldable pub del_rule : Handler W
  unfolding bad_body del_failed
  del_rule c w =
      on (bind c) (λ e. (bad_body e c, w))
        (λ req.
          let ((cidr, error), w₁) = manager.del_rule req.ip w in
          (
            elim error [
              | some e ↦ del_failed e c
              | none ↦ respond 200 (plain ("CIDR " ++ (cidr ++ " deleted."))) c
            ],
            w₁,
          ))

-- ListRules
unfoldable pub list_rules : {W : Type 0} → IpRuleManager W → Handler W
unfolding version_filter type_filter set_reason_detail
list_rules manager c w =
    let (listed, w₁) =
      manager.list_rules (version_filter (c.request.query "version"))
        (type_filter (c.request.query "type")) w in
    (
      on listed
          (λ e.
            respond 500 (plain "Server error...")
              (set_reason_detail list_ip_rules_failed (some e) c))
          (λ l. respond 200 (json (("rules", rules l) ∷ [])) c),
      w₁,
    )

-- UserManageHandler.ListUsers
unfoldable pub list_users : {W : Type 0} → UserManager W → Handler W
unfolding set_reason_detail
list_users manager c w =
    let (listed, w₁) = manager.list_users w in
    (
      on listed
          (λ e.
            respond 500 (plain "Server error...") (set_reason_detail list_users_failed (some e) c))
          (λ l. respond 200 (json (("users", users l) ∷ [])) c),
      w₁,
    )
