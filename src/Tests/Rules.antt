-- ===== src/Tests/Rules.antt =====
-- Rules, registration codes and listings at concrete inputs.
use ktauth.Prelude.{◌↔◌, ℕ, Bool, true, false, none, some, List, [], ◌∷◌, length, ◌≡◌, refl, arith}
use ktauth.Errors.{ip_not_found, pg_error, no_rows}
use ktauth.Effects.{Result, ok, err}
use ktauth.Net.Print.{net_string}
use ktauth.Model.{ip_white_list}
use ktauth.IpUtils.{Processed, process_ip}
use ktauth.Postgres.{Postgres}
use ktauth.Gin.{Context, fresh_context}
use ktauth.Handlers.IpRules
use ktauth.Handlers.IpRules.{Rule}
use ktauth.Handlers.IpRules.Replies.{Reply, rule_manager, add_rule-Reply}
use ktauth.Repository.IpCache
use ktauth.Repository.RateLimit
use ktauth.Access.IpService.{IpRuleReader, query_rule}
use ktauth.Access.IpService.Verdict.{Answer, said, looked_up, query_rule-Answer, query_rule_iff}
use ktauth.Admin.Rules.{IpRuleStore, add_rule}
use ktauth.Admin.Rules.TakesEffect.{
  rule_cache, cached_rules, recorded_requests, add_rule_takes_effect,
}
use ktauth.Identity.Email.{EmailService, Mailer, send_code}
use ktauth.Identity.Email.Code.{Random, generate_code, digits_text}
use ktauth.Identity.Email.Code.Digits.{IsDecimal, reading, generate_code-digits}
use ktauth.Identity.Email.Sending.{Sending, send_code-Sending}
use ktauth.Repository.Keys.{register_set, register_validate, countdown_set, countdown_cd}
use ktauth.Tests.Memory.{Memory, memory, env}
use ktauth.Tests.Memory.Laws.{memory-StringLaws}
use ktauth.Tests.Routes.{world, from}

-- A table that lists one address as whitelisted.
abbrev reader : IpRuleReader Memory
reader = record {
  query_ip = λ version ip w. elim ip as (λ _. Result Bool × Memory) [
    | [] ↦ (err ip_not_found, w)
    | b ∷ rest ↦ (ok true, w)
  ];
}

abbrev pub table : IpRuleStore Memory
table = record {
  add_ip = λ version net white note w. (ok tt, w);
  del_ip = λ version net w. (ok tt, w);
  get_ips = λ version white w. (ok [], w);
}

query_rule-Answer_example :
    Answer reader
      (rule_cache memory)
      "10.1.2.3"
      world
      (query_rule reader (rule_cache memory) "10.1.2.3" world)
query_rule-Answer_example = query_rule-Answer reader (rule_cache memory) "10.1.2.3" world

abbrev address : Processed
address = record {
  version = 4;
  ip = 0 ∷ 0 ∷ 0 ∷ 0 ∷ 0 ∷ 0 ∷ 0 ∷ 0 ∷ 0 ∷ 0 ∷ 255 ∷ 255 ∷ 10 ∷ 1 ∷ 2 ∷ 3 ∷ [];
  ip_net = record { ip = 10 ∷ 1 ∷ 2 ∷ 3 ∷ []; mask = 255 ∷ 255 ∷ 255 ∷ 255 ∷ [] };
}

parsed : process_ip "10.1.2.3" ≡ ok address
unfolding process_ip
parsed = refl

query_rule_iff_example :
    ((query_rule reader (rule_cache memory) "10.1.2.3" world).0 ≡ ok ip_white_list)
    ↔ (said (looked_up reader (rule_cache memory) address world).0 ≡ some ip_white_list)
unfolding IpCache.get
query_rule_iff_example =
    query_rule_iff reader (rule_cache memory) "10.1.2.3" world address ip_white_list parsed
      (λ rule hit. absurd (cc))

abbrev rule_added : Memory
rule_added =
    (add_rule table (cached_rules memory) (recorded_requests memory) "10.1.2.3" true none world).1

add_rule_takes_effect_example :
    ((query_rule reader (rule_cache memory) "10.1.2.3" rule_added).0 ≡ ok ip_white_list)
    ↔ (said (looked_up reader (rule_cache memory) address rule_added).0 ≡ some ip_white_list)
unfolding add_rule process_ip net_string IpCache.delete RateLimit.delete
add_rule_takes_effect_example =
    add_rule_takes_effect memory-StringLaws table reader (λ k w. refl) "10.1.2.3" "10.1.2.3"
      "10.1.2.3/32" true none world rule_added address ip_white_list refl parsed refl
      (record { later = omega arith; same = λ t h. refl })

abbrev pub mailer : Mailer Memory
mailer = record {
  parse_address = λ s. ok (record { address = s; text = "<" });
  send_mail = λ server login sender receiver message w. (ok tt, w);
  date = λ w. "Mon, 01 Jan 2024 00:00:00 +0000";
}

abbrev pub random : Random Memory
random = record { int_below = λ n w. (ok 12345, w) }

abbrev pub smtp : EmailService Memory
smtp = record {
  code_store = record { set = register_set memory; validate = register_validate memory };
  cd_store = record { set = countdown_set memory; cd = countdown_cd memory };
  host = "smtp.example.org";
  port = "587";
  username = "";
  password = "";
  from = record { address = "auth@example.org"; text = "<auth@example.org>" };
}

send_code-Sending_example :
    Sending mailer random env smtp "a@b.c" world
      (send_code mailer random env (some smtp) "a@b.c" world)
send_code-Sending_example = send_code-Sending mailer random env smtp "a@b.c" world

generate_code-digits_example :
    (ds : List ℕ) × (generate_code random 6 world ≡ (ok (digits_text ds), world))
    × (length ds ≡ 6)
    × IsDecimal ds
    × (reading 0 ds ≡ 12345)
generate_code-digits_example = generate_code-digits random 5 12345 world world refl (omega arith)

-- An insertion that finds the network there already.
abbrev pub pg : Postgres Memory
pg = record {
  exec = λ statement w. ((0, some (pg_error "23505" "duplicate key")), w);
  row_bool = λ statement w. (err no_rows, w);
  row_ip = λ statement w. (err no_rows, w);
  row_user = λ statement w. (err no_rows, w);
  query_ips = λ statement w. (ok (record { scanned = []; end_error = none }), w);
  query_users = λ statement w. (ok (record { scanned = []; end_error = none }), w);
}

abbrev pub ban_request : Context → Result Rule
ban_request c = ok (record { ip = "10.1.2.3"; note = none; is_white_list = some false })

abbrev visit : Context
visit = fresh_context (from "10.0.0.1")

add_rule-Reply_example :
    Reply pg
      (cached_rules memory)
      (recorded_requests memory)
      ban_request
      visit
      world
      (IpRules.add_rule
        (rule_manager pg (cached_rules memory) (recorded_requests memory))
        ban_request
        visit
        world).0
      (IpRules.add_rule
        (rule_manager pg (cached_rules memory) (recorded_requests memory))
        ban_request
        visit
        world).1
add_rule-Reply_example =
    add_rule-Reply pg (cached_rules memory) (recorded_requests memory) ban_request visit world
