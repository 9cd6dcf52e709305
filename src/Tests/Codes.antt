-- ===== src/Tests/Codes.antt =====
-- Registration codes, from the mail to the registration, with the Redis in memory.
use ktauth.Prelude.{true, none, some, ◌≡◌, ◌≢◌, refl, arith}
use ktauth.Errors.{errorf}
use ktauth.Effects.{Result, ok, err}
use ktauth.Gin.{Context}
use ktauth.Repository.Keys.{
  register_key, register_set, register_validate, countdown_set, countdown_cd,
}
use ktauth.Repository.Keys.Lifetimes.{code_life}
use ktauth.Identity.Email.Code.{generate_code}
use ktauth.Identity.Email.{returned, send_code, verify_code}
use ktauth.Identity.Email.Spacing.{send_code_spacing}
use ktauth.Handlers.EmailCodes.{EmailCode, EmailCodeManager, verify_email_code}
use ktauth.Handlers.Register.{Register, RegisterManagers}
use ktauth.Tests.Memory.{Memory, memory, env, peek}
use ktauth.Tests.Memory.Laws.{memory-StringLaws}
use ktauth.Tests.Routes.{world}
use ktauth.Tests.Rules.{mailer, random, smtp}
use ktauth.Tests.Sessions.{with_keys}
use ktauth.Tests.Verdicts.{only_nil}

-- A code that was stored is accepted, and then not again.
abbrev code_set : Memory
code_set = (register_set memory "a@b.c" "012345" world).1

abbrev code_used : Memory
code_used = (register_validate memory "a@b.c" "012345" code_set).1

code_life_example :
    ((register_validate memory "a@b.c" "012345" code_set).0 ≡ ok true)
    × ((register_validate memory "a@b.c" "012345" code_used).0 ≢ ok true)
unfolding register_set register_validate
code_life_example =
    code_life memory-StringLaws "a@b.c" "012345" world code_set code_used refl
      (record { later = omega arith; same = λ t h. refl })
      (λ e bad. only_nil (peek code_set 100000 (register_key "a@b.c" "012345")) e bad)
      (record { later = omega arith; same = λ t h. refl })

-- The address asks for a second code half a minute after the first.
abbrev mailed : Memory
mailed = (send_code mailer random env (some smtp) "a@b.c" world).1

abbrev soon_after : Memory
soon_after = record mailed { clock = 130000 }

send_code_spacing_example : send_code mailer random env (some smtp) "a@b.c" soon_after ≡ (
  returned (err (errorf "verification code recently sent")),
  (countdown_cd memory "a@b.c" soon_after).1,
)
unfolding send_code countdown_set countdown_cd register_set generate_code
send_code_spacing_example =
    send_code_spacing memory-StringLaws mailer random smtp refl "a@b.c" world soon_after refl
      (record { later = omega arith; same = λ t h. refl })
      (λ e bad. only_nil (peek soon_after 130000 "a@b.c") e bad) (omega arith)

abbrev manager : EmailCodeManager Memory
manager = record {
  send_code = send_code mailer random env (some smtp);
  verify_code = verify_code (some smtp);
}

abbrev verifying : Context → Result EmailCode
verifying c = ok (record { email = "a@b.c"; code = "012345" })

abbrev registering : Context → Result Register
registering c = ok (record {
  token = none;
  user = "bob";
  password = "p";
  email = some "a@b.c";
  code = some "012345";
})

abbrev managers : RegisterManagers Memory
managers = record {
  new_user = λ name password email role w. (ok "u3", w);
  consume = λ token w. (true, w);
  code_manager = some manager;
}

abbrev verified_once : Memory
verified_once = (verify_email_code (some manager) verifying with_keys code_set).1
