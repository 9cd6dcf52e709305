-- ===== src/Tests/Verdicts.antt =====
-- internal/service/access/ip.go: the verdicts on two addresses of one IPv6 /64.
use Prim.Native.String.{String}
use ktauth.Prelude.{
  ℕ, ◌+◌, ◌<◌, ◌≤◌, ◌==◌, true, false, Option, none, some, List, [], ◌∷◌, ◌≡◌, ◌↔◌, refl, arith,
  if◌then◌else◌,
}
use ktauth.Errors.{Error, ip_not_found, redis_nil, is_redis_nil}
use ktauth.Redis.Laws.{Value, text, number, members, zset}
use ktauth.Effects.{Result, ok, err}
use ktauth.Net.Print.{net_string}
use ktauth.IpUtils.{Processed, process_ip}
use ktauth.Model.{IpRuleType, ip_black_list, ip_grey_list}
use ktauth.Repository.IpCache
use ktauth.Access.IpService.{IpRuleReader, query_rule}
use ktauth.Access.IpService.Verdict.{said, looked_up}
use ktauth.Admin.Rules.TakesEffect.{rule_cache}
use ktauth.App.StaleRules.{Learned, verdict_stands}
use ktauth.Tests.Memory.{Memory, memory, reply}
use ktauth.Tests.Memory.Laws.{memory-StringLaws}
use ktauth.Tests.Routes.{world}

abbrev last : List ℕ → ℕ
last [] = 0
last (b ∷ []) = b
last (b ∷ c ∷ bs) = last (c ∷ bs)

-- A table with a rule for one address, 2001:db8::1, which is blacklisted.
abbrev pub one_banned : IpRuleReader Memory
one_banned = record {
  query_ip = λ version ip w. (if last ip == 1 then ok false else err ip_not_found, w);
}

abbrev ask : String → Memory → Result IpRuleType × Memory
ask = query_rule one_banned (rule_cache memory)

abbrev asked : Memory
asked = (ask "2001:db8::1" world).1

abbrev hour_later : Memory
hour_later = record asked { clock = 100000 + 3600000 }

-- The neighbour of a banned address is greylisted, unless the banned one asked before.
neighbours :
    ((ask "2001:db8::2" world).0 ≡ ok ip_grey_list)
    × ((ask "2001:db8::2" asked).0 ≡ ok ip_black_list)
    × ((ask "2001:db8::2" hour_later).0 ≡ ok ip_grey_list)
unfolding query_rule process_ip IpCache.get IpCache.cache net_string IpCache.ttl
neighbours = (refl, refl, refl)

abbrev pub in_64 : ℕ → Processed
in_64 b = record {
  version = 6;
  ip = 32 ∷ 1 ∷ 13 ∷ 184 ∷ 0 ∷ 0 ∷ 0 ∷ 0 ∷ 0 ∷ 0 ∷ 0 ∷ 0 ∷ 0 ∷ 0 ∷ 0 ∷ b ∷ [];
  ip_net = record {
    ip = 32 ∷ 1 ∷ 13 ∷ 184 ∷ 0 ∷ 0 ∷ 0 ∷ 0 ∷ 0 ∷ 0 ∷ 0 ∷ 0 ∷ 0 ∷ 0 ∷ 0 ∷ 0 ∷ [];
    mask = 255 ∷ 255 ∷ 255 ∷ 255 ∷ 255 ∷ 255 ∷ 255 ∷ 255 ∷ 0 ∷ 0 ∷ 0 ∷ 0 ∷ 0 ∷ 0 ∷ 0 ∷ 0 ∷ [];
  };
}

first_parsed : process_ip "2001:db8::1" ≡ ok (in_64 1)
unfolding process_ip
first_parsed = refl

pub second_parsed : process_ip "2001:db8::2" ≡ ok (in_64 2)
unfolding process_ip
second_parsed = refl

learned : Learned memory-StringLaws one_banned (in_64 1) ip_black_list world
unfolding IpCache.get IpCache.cache
learned = record { missed = (_, refl); says = refl; stored = refl }

pub only_nil : (o : Option Value) (e : Error) → reply o ≡ err e → is_redis_nil e ≡ true
only_nil none e bad = let same : e ≡ redis_nil = cc in rw same refl
only_nil (some (text s)) e bad = absurd (cc)
only_nil (some (number n)) e bad = let same : e ≡ redis_nil = cc in rw same refl
only_nil (some (members l)) e bad = let same : e ≡ redis_nil = cc in rw same refl
only_nil (some (zset l)) e bad = let same : e ≡ redis_nil = cc in rw same refl

verdict_stands_example :
    (100000 < 100000 + 3600000 → (ask "2001:db8::2" asked).0 ≡ ok ip_black_list)
    × (100000 + 3600000 ≤ 100000
        → (rule : IpRuleType)
        → ((ask "2001:db8::2" asked).0 ≡ ok rule)
          ↔ (said (looked_up one_banned (rule_cache memory) (in_64 2) asked).0 ≡ some rule))
unfolding IpCache.get IpCache.cache IpCache.ttl query_rule process_ip
verdict_stands_example =
    verdict_stands memory-StringLaws one_banned "2001:db8::1" "2001:db8::2" world asked (in_64 1)
      (in_64 2) ip_black_list first_parsed second_parsed refl learned
      (record { later = omega arith; same = λ t h. refl }) (λ e bad. only_nil _ e bad)
