-- ===== src/Repository/IpCache.antt =====
-- internal/repository/iprule_cache.go: the rules cached in Redis.
pub mod Held
use Prim.Native.String.{◌++◌}
use ktauth.Prelude.{ℕ, ◌*◌, String, List, map, str_eq, if◌then◌else◌}
use ktauth.Errors.{errorf, is_redis_nil}
use ktauth.Effects.{ok, err, on, Op}
use ktauth.Model.{IpRuleType, ip_white_list, ip_black_list, ip_grey_list}
use ktauth.Redis.{Redis}

-- The time to live of a cached rule in milliseconds; a type that the map lacks gives 0.
unfoldable pub ttl : IpRuleType → ℕ
ttl rule_type =
    if str_eq rule_type ip_black_list
    then 60 * 60000
    else if str_eq rule_type ip_white_list
    then 30 * 60000
    else if str_eq rule_type ip_grey_list
    then 5 * 60000
    else 0

abbrev pub rule_key : String → String
rule_key ip = "rule:ip:" ++ ip

module _ {W : Type 0} (r : Redis W) where
  -- Cache
  unfoldable pub cache : IpRuleType → List String → Op W (Unit {0})
  cache rule_type ips w = r.pipe_set (map (λ ip. (rule_key ip, rule_type, ttl rule_type)) ips) w

  -- Get
  unfoldable pub get : String → Op W String
  get ip w =
      let (found, w₁) = r.get (rule_key ip) w in
      (
        on found (λ e. if is_redis_nil e then err (errorf "Cache not found") else err e)
            (λ rule. ok rule),
        w₁,
      )

  -- Delete
  unfoldable pub delete : String → Op W (Unit {0})
  delete ip w = r.del (rule_key ip) w
