-- ===== src/Tests/Overlaps.antt =====
-- Queries of the rules that overlap other steps.
use ktauth.Prelude.{String, List, [], ◌∷◌, some, ◌≡◌, ◌⊎◌, refl, arith}
use ktauth.Net.Print.{net_string}
use ktauth.IpUtils.{process_ip}
use ktauth.Model.{ip_black_list}
use ktauth.Repository.IpCache
use ktauth.Repository.RateLimit
use ktauth.Repository.IpCache.{rule_key}
use ktauth.Access.IpService.{remember, query_rule}
use ktauth.Access.IpService.Verdict.{said, looked_up}
use ktauth.Admin.Rules.TakesEffect.{rule_cache, cached_rules, recorded_requests}
use ktauth.App.VerdictAge.{Event, looked, wrote, Saw, Kept, Lookup, Young}
use ktauth.App.VerdictAge.Changes.{IsApart, Reached, verdict_age}
use ktauth.Admin.Rules.{del_rule}
use ktauth.Tests.Rules.{table}
use ktauth.Tests.Memory.Sets.{memory-SetLaws}
use ktauth.Prelude.{inl}
use ktauth.Tests.Memory.{Memory, memory, env, view}
use ktauth.Tests.Memory.Laws.{memory-StringLaws}
use ktauth.Tests.Verdicts.{one_banned, in_64, second_parsed}
use ktauth.Tests.Routes.{world}

abbrev net_64 : String
net_64 = "2001:db8::/64"

-- The banned address was looked up, its rule was deleted, and two minutes later the rule was cached.
abbrev rule_gone : Memory
rule_gone = (del_rule table (cached_rules memory) (recorded_requests memory) "2001:db8::1" world).1

abbrev two_minutes_later : Memory
two_minutes_later = record rule_gone { clock = 220000 }

abbrev cached_late : Memory
cached_late = (remember one_banned (rule_cache memory) net_64 ip_black_list two_minutes_later).1

banned-Lookup : Lookup memory env view one_banned net_64 ip_black_list world
unfolding net_string
banned-Lookup = record { address = in_64 1; of_net = refl; says = refl }

apart : IsApart memory env view one_banned table net_64
apart = record {
  gets = λ k w. (omega arith, λ t later. inl refl);
  queries = λ version ip w. (omega arith, λ t later. inl refl);
  adds = λ version range white note w. (omega arith, λ t later. inl refl);
  deletes = λ version range w. (omega arith, λ t later. inl refl);
}

abbrev late_log : List (Event Memory)
late_log = wrote ip_black_list world 220000 ∷ (looked ip_black_list world ∷ [])

looked-Reached :
    Reached memory env view one_banned table net_64 world (looked ip_black_list world ∷ [])
looked-Reached =
    Reached.table_asked ip_black_list banned-Lookup (Reached.empty {w = world} λ t later. refl)

gone-Reached :
    Reached memory env view one_banned table net_64 rule_gone (looked ip_black_list world ∷ [])
gone-Reached = Reached.rule_deleted "2001:db8::1" looked-Reached

late-Reached : Reached memory env view one_banned table net_64 cached_late late_log
unfolding del_rule process_ip IpCache.delete RateLimit.delete Saw
late-Reached =
    let waited : Kept memory env view one_banned net_64 rule_gone two_minutes_later =
      (omega arith, λ t later. inl refl) in
    Reached.remembered ip_black_list world (inl (refl, refl)) (Reached.other waited gone-Reached)

verdict_age_example :
    (said (looked_up one_banned (rule_cache memory) (in_64 2) cached_late).0 ≡ some ip_black_list)
    ⊎ Young memory env view one_banned net_64 late_log ip_black_list 220000
unfolding remember IpCache.cache IpCache.get IpCache.ttl query_rule net_string process_ip del_rule
    IpCache.delete RateLimit.delete
verdict_age_example =
    verdict_age memory-StringLaws memory-SetLaws one_banned table net_64 apart "2001:db8::2"
      cached_late late_log (in_64 2) ip_black_list late-Reached second_parsed refl refl
