-- ===== src/Access/IpService.antt =====
-- internal/service/access/ip.go: the rule of a client address, from the cache or the table.
pub mod Verdict
use Prim.Native.String.{◌++◌}
use ktauth.Prelude.{ℕ, String, Bool, List, [], ◌∷◌, if◌then◌else◌}
use ktauth.Errors.{errorf, message, is_ip_not_found}
use ktauth.Effects.{ok, err, on, Op}
use ktauth.Net.Print.{net_string}
use ktauth.IpUtils.{Processed, process_ip}
use ktauth.Model.{IpRuleType, ip_white_list, ip_black_list, ip_grey_list}

pub record IpRuleReader (W : Type 0) : Type 0 where
  pub query_ip : ℕ → List ℕ → Op W Bool

pub record IpRuleCache (W : Type 0) : Type 0 where
  pub cache : IpRuleType → List String → Op W (Unit {0})
  pub get : String → Op W String

-- The type of a row's verdict.
abbrev pub listed : Bool → IpRuleType
listed white = if white then ip_white_list else ip_black_list

module _ {W : Type 0} (reader : IpRuleReader W) (store : IpRuleCache W) where
  -- A failure to cache is only logged.
  unfoldable pub remember : String → IpRuleType → Op W IpRuleType
  remember key rule_type w =
      let (cached, w₁) = store.cache rule_type (key ∷ []) w in (ok rule_type, w₁)

  -- The lookup in the table, behind a miss or a failure of the cache.
  pub query_table : Processed → Op W IpRuleType
  unfolding remember
  query_table p w =
      let key = net_string p.ip_net in
      let (white, w₁) = reader.query_ip p.version p.ip w in
      on white
        (λ e.
          if is_ip_not_found e
          then remember key ip_grey_list w₁
          else (err (errorf ("Error when getting ip_rule from db: " ++ message e)), w₁))
        (λ b. remember key (listed b) w₁)

  -- QueryRule
  unfoldable pub query_rule : String → Op W IpRuleType
  unfolding query_table
  query_rule ip_str w =
      on (process_ip ip_str) (λ e. (err (errorf "Invalid IP"), w))
        (λ p.
          let (cached, w₁) = store.get (net_string p.ip_net) w in
          on cached (λ e. query_table p w₁) (λ rule. (ok rule, w₁)))
