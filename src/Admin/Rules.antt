-- ===== src/Admin/Rules.antt =====
-- internal/service/admin/manage_iprule.go: adding and deleting a rule.
pub mod TakesEffect
use ktauth.Prelude.{ℕ, String, Bool, Option, none, some, List, map}
use ktauth.Errors.{Error}
use ktauth.Effects.{Result, ok, err, on, Op}
use ktauth.Net.Bytes.{IpNet}
use ktauth.Net.Print.{net_string}
use ktauth.IpUtils.{process_ip}
use ktauth.Model.{Ip}

pub record IpRuleStore (W : Type 0) : Type 0 where
  pub add_ip : ℕ → IpNet → Bool → Option String → Op W (Unit {0})
  pub del_ip : ℕ → IpNet → Op W (Unit {0})
  pub get_ips : Option ℕ → Option Bool → Op W (List Ip)

-- IPRuleCacheInvalidator and RateLimitInvalidator
pub record Invalidator (W : Type 0) : Type 0 where
  pub delete : String → Op W (Unit {0})

-- A function that returns a text beside its error.
abbrev pub TextOp : Type 0 → Type 0
TextOp W = W → (String × Option Error) × W

abbrev pub error_of {ℓ} : {A : Type ℓ} → Result A → Option Error
error_of (ok a) = none
error_of (err e) = some e

pub record IpResponse : Type 0 where
  pub id : ℕ
  pub version : ℕ
  pub ip_cidr : String
  pub is_whitelist : Bool
  pub create_at : ℕ
  pub update_at : ℕ
  pub note : String

abbrev pub or_empty : Option String → String
or_empty none = ""
or_empty (some s) = s

pub ip_response : Ip → IpResponse
ip_response ip = record {
  id = ip.id;
  version = ip.version;
  ip_cidr = net_string ip.ip_range;
  is_whitelist = ip.is_whitelist;
  create_at = ip.create_at;
  update_at = ip.update_at;
  note = or_empty ip.note;
}

module _ {W : Type 0} (store : IpRuleStore W) (cache limits : Invalidator W) where
  -- Failures to delete the cached rule and the recorded requests are only logged.
  unfoldable pub invalidate : String → W → W
  invalidate cidr w = let (cached, w₁) = cache.delete cidr w in (limits.delete cidr w₁).1

  -- AddRule
  unfoldable pub add_rule : String → Bool → Option String → TextOp W
  unfolding invalidate
  add_rule ip_str white note w =
      on (process_ip ip_str) (λ e. (("", some e), w))
        (λ p.
          let cidr = net_string p.ip_net in
          let (added, w₁) = store.add_ip p.version p.ip_net white note w in
          on added (λ e. ((cidr, some e), w₁)) (λ u. ((cidr, none), invalidate cidr w₁)))

  -- DelRule
  unfoldable pub del_rule : String → TextOp W
  unfolding invalidate
  del_rule ip_str w =
      on (process_ip ip_str) (λ e. (("", some e), w))
        (λ p.
          let cidr = net_string p.ip_net in
          let (deleted, w₁) = store.del_ip p.version p.ip_net (invalidate cidr w) in
          ((cidr, error_of deleted), w₁))

  -- ListRules
  unfoldable pub list_rules : Option ℕ → Option Bool → Op W (List IpResponse)
  unfolding ip_response
  list_rules version white w =
      let (rows, w₁) = store.get_ips version white w in
      (on rows (λ e. err e) (λ ips. ok (map ip_response ips)), w₁)
