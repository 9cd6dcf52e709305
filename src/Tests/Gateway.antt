-- ===== src/Tests/Gateway.antt =====
-- GET /kt/0 of the whole program, for a greylisted client.
use Prim.Native.String.{String}
use package.text.Mathlib.TextLemmas.{append_assoc, append_inj}
use ktauth.Prelude.{
  ◌≢◌, eq_iff, str_eq-ne, ◌≤◌, [], ◌∷◌, Bool, true, ◌≡◌, ◌∙◌, refl, sym, ap, arith,
}
use ktauth.Effects.{Result, ok}
use ktauth.IpUtils.{Processed, process_ip}
use ktauth.Net.Print.{net_string}
use ktauth.Repository.RateLimit
use ktauth.Repository.RateLimit.Window.Counts.{within}
use ktauth.Repository.IpCache
use ktauth.Repository.IpRepo
use ktauth.Access.IpService
use ktauth.Access.RateService
use ktauth.Access.RateService.{rate_window}
use ktauth.Middleware.CheckIp
use ktauth.Middleware.RateLimit as Limiting
use ktauth.Routes.{no_content}
use ktauth.Routes.Visit.{limited}
use ktauth.App.{guards}
use ktauth.App.GreyLimit.{Visits, answer, grey_bound}
use ktauth.Tests.Memory.{Memory, Slot, memory, env, view, store}
use ktauth.Redis.Laws.{Untouched}
use ktauth.Repository.IpCache.{rule_key}
use ktauth.Repository.RateLimit.Strikes.{abuse_key}
use ktauth.Repository.RateLimit.Window.Bound.{rate_key}
use ktauth.App.Undisturbed.{IsAside}
use ktauth.Tests.RateLimit.{window_laws}
use ktauth.Tests.Routes.{world, from, engine}
use ktauth.Tests.App.{packages, settings}

abbrev client : Processed
client = record {
  version = 4;
  ip = 0 ∷ 0 ∷ 0 ∷ 0 ∷ 0 ∷ 0 ∷ 0 ∷ 0 ∷ 0 ∷ 0 ∷ 255 ∷ 255 ∷ 10 ∷ 0 ∷ 0 ∷ 2 ∷ [];
  ip_net = record { ip = 10 ∷ 0 ∷ 0 ∷ 2 ∷ []; mask = 255 ∷ 255 ∷ 255 ∷ 255 ∷ [] };
}

parsed : process_ip "10.0.0.2" ≡ ok client
unfolding process_ip
parsed = refl

abbrev asked : Memory
asked = (answer packages settings engine (from "10.0.0.2") world).1

let_in : (answer packages settings engine (from "10.0.0.2") world).0.status ≡ 204
unfolding CheckIp.acl Limiting.rate_limit no_content process_ip net_string IpService.query_rule
    IpCache.get IpRepo.query_ip IpCache.cache IpCache.ttl RateService.allow RateLimit.allow
let_in = refl

rule_not_rate : (a b : String) → rule_key a ≢ rate_key b
rule_not_rate a b e =
    let parts =
      append_inj {s₁ = "ru"} {s₂ = "ra"}
        (sym (append_assoc "ru" "le:ip:" a) ∙ e ∙ append_assoc "ra" "telimit:ip:" b) refl in
    ground (arith, eq_iff "ru" "ra", parts.0)

abuse_not_rate : (a b : String) → abuse_key a ≢ rate_key b
abuse_not_rate a b e =
    let parts =
      append_inj {s₁ = "ab"} {s₂ = "ra"}
        (sym (append_assoc "ab" "use:429:" a) ∙ e ∙ append_assoc "ra" "telimit:ip:" b) refl in
    ground (arith, eq_iff "ab" "ra", parts.0)

-- A key that is stored leaves any other alone.
stored_aside :
    (k j : String) (slot : Slot) (w : Memory)
    → k ≢ j
    → Untouched memory env view j w (store k slot w)
stored_aside k j slot w ne = record {
  later = omega arith;
  same = λ t h. rw (str_eq-ne k j ne) refl;
}

aside : IsAside packages settings view "10.0.0.2/32"
aside = record {
  get-Calm = λ ip w. record { later = omega arith; same = λ t h. refl };
  pipe_set-Calm = λ ip rule ms w. stored_aside (rule_key ip) _ _ w (rule_not_rate ip "10.0.0.2/32");
  row_bool-Calm = λ query w. record { later = omega arith; same = λ t h. refl };
  incr-Calm = λ ip w. stored_aside (abuse_key ip) _ _ w (abuse_not_rate ip "10.0.0.2/32");
  expire-Calm = λ ip ttl w. stored_aside (abuse_key ip) _ _ w (abuse_not_rate ip "10.0.0.2/32");
  del-Calm = λ ip w. stored_aside (abuse_key ip) _ _ w (abuse_not_rate ip "10.0.0.2/32");
}

allowed : (limited engine (guards packages settings) (from "10.0.0.2") world).0 ≡ ok true
unfolding IpService.query_rule IpCache.get IpRepo.query_ip IpCache.cache process_ip net_string
    RateService.allow RateLimit.allow
allowed = refl

one_visit : Visits packages settings engine view "10.0.0.2/32" asked (100000 ∷ [])
unfolding CheckIp.acl Limiting.rate_limit no_content process_ip net_string IpService.query_rule
    IpCache.get IpRepo.query_ip IpCache.cache IpCache.ttl RateService.allow RateLimit.allow
one_visit =
    Visits.visit (from "10.0.0.2") client (Visits.start {w = world} (λ t h. refl)) parsed refl refl
      (λ w₂ denied banned.
        let no = ap (λ (o : Result Bool × Memory). o.0) denied in cc (sym allowed ∙ no))

grey_bound_example : within rate_window 100500 (100000 ∷ []) ≤ 60
grey_bound_example =
    grey_bound packages settings engine view "10.0.0.2/32" refl window_laws aside 100500 one_visit
