-- ===== src/Tests/Networks.antt =====
-- Two addresses of one IPv6 /64 at the limits of the whole program, and the deletion of a rule.
use ktauth.Prelude.{ℕ, List, [], ◌∷◌, some, ◌≡◌, refl}
use ktauth.Net.Print.{number_and_mask}
use ktauth.IpUtils.WellFormed.{IsWellFormed, process_ip-IsWellFormed}
use ktauth.Effects.{ok}
use ktauth.IpUtils.{Processed, process_ip}
use ktauth.Handlers.IpRules
use ktauth.Handlers.IpRules.Deletions.{Deletion, del_rule-Deletion}
use ktauth.Handlers.IpRules.Replies.{rule_manager}
use ktauth.Admin.Rules.TakesEffect.{cached_rules, recorded_requests}
use ktauth.Tests.Memory.{memory}
use ktauth.Tests.Rules.{pg, ban_request}
use ktauth.Tests.Sessions.{with_keys}
use ktauth.Tests.Routes.{world}

abbrev in_64 : ℕ → Processed
in_64 last = record {
  version = 6;
  ip = 32 ∷ 1 ∷ 13 ∷ 184 ∷ 0 ∷ 0 ∷ 0 ∷ 0 ∷ 0 ∷ 0 ∷ 0 ∷ 0 ∷ 0 ∷ 0 ∷ 0 ∷ last ∷ [];
  ip_net = record {
    ip = 32 ∷ 1 ∷ 13 ∷ 184 ∷ 0 ∷ 0 ∷ 0 ∷ 0 ∷ 0 ∷ 0 ∷ 0 ∷ 0 ∷ 0 ∷ 0 ∷ 0 ∷ 0 ∷ [];
    mask = 255 ∷ 255 ∷ 255 ∷ 255 ∷ 255 ∷ 255 ∷ 255 ∷ 255 ∷ 0 ∷ 0 ∷ 0 ∷ 0 ∷ 0 ∷ 0 ∷ 0 ∷ 0 ∷ [];
  };
}

first_address : process_ip "2001:db8::1" ≡ ok (in_64 1)
unfolding process_ip
first_address = refl

second_address : process_ip "2001:db8::2" ≡ ok (in_64 2)
unfolding process_ip
second_address = refl

del_rule-Deletion_example :
    Deletion pg
      (cached_rules memory)
      (recorded_requests memory)
      ban_request
      with_keys
      world
      (IpRules.del_rule
        (rule_manager pg (cached_rules memory) (recorded_requests memory))
        ban_request
        with_keys
        world).0
      (IpRules.del_rule
        (rule_manager pg (cached_rules memory) (recorded_requests memory))
        ban_request
        with_keys
        world).1
del_rule-Deletion_example =
    del_rule-Deletion pg (cached_rules memory) (recorded_requests memory) ban_request with_keys
      world

process_ip-IsWellFormed_example :
    IsWellFormed (in_64 1) × ((x : List ℕ × List ℕ) × (number_and_mask (in_64 1).ip_net ≡ some x))
process_ip-IsWellFormed_example = process_ip-IsWellFormed "2001:db8::1" (in_64 1) first_address
