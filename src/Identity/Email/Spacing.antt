-- ===== src/Identity/Email/Spacing.antt =====
-- internal/service/identity/email.go over internal/repository/countdown_repo.go: how often SendCode
-- sends a code.
use ktauth.Prelude.{◌+◌, ◌<◌, String, Bool, true, some, ltb, ◌≡◌, ◌∙◌, sym, ap, subst, arith}
use ktauth.Errors.{errorf}
use ktauth.Effects.{Result, ok, err}
use ktauth.Redis.{Redis, Env}
use ktauth.Redis.Laws.{View, Untouched, StringLaws}
use ktauth.Repository.Keys.{countdown_ttl, countdown_set, countdown_cd}
use ktauth.Repository.Keys.Lifetimes.{OnlyMisses, cooldown_life}
use ktauth.Identity.Email.Code.{Random}
use ktauth.Identity.Email.{
  Address, Mailer, EmailService, CooldownStore, Outcome, returned, send_code,
}
use ktauth.Identity.Email.Sending.{Delivery, Sending, send_code-Sending}

-- CountDownRepo, as main.go gives it to NewEmailService.
abbrev pub cooldowns : {W : Type 0} → Redis W → CooldownStore W
cooldowns r = record { set = countdown_set r; cd = countdown_cd r }

module _ {W : Type 0} {r : Redis W} {env : Env W} {v : View W} (l : StringLaws r env v)
    (mailer : Mailer W) (random : Random W) (s : EmailService W)
    (redis_cooldowns : s.cd_store ≡ cooldowns r) where
  open v use {live, clock}

  -- What is known once SendCode has answered no error: the address is bare, and its last step
  -- started the cooldown.
  record Sent (email : String) (w : W) : Type 0 where
    to : Address
    parsed : mailer.parse_address email ≡ ok to
    bare : to.address ≡ email
    before : W
    started :
        countdown_set r email before ≡ (ok tt, (send_code mailer random env (some s) email w).1)

  cooled :
      (to : Address) (email code : String) (w : W) (res : Result (Unit {0}) × W)
      → Delivery mailer random env s to email code w res
      → res.0 ≡ ok tt
      → (before : W) × (s.cd_store.set email before ≡ (ok tt, res.1))
  cooled to email code w res (Delivery.delivered w₁ w₂ w₃ mailed stored started e) done =
      (w₂, started ∙ ap (λ (o : Result (Unit {0}) × W). (ok tt, o.1)) (sym e))
  cooled to email code w res (Delivery.not_mailed x w₁ mailed e) done = absurd (cc)
  cooled to email code w res (Delivery.not_stored x w₁ w₂ mailed stored e) done = absurd (cc)
  cooled to email code w res (Delivery.not_cooled x w₁ w₂ w₃ mailed stored started e) done =
      absurd (cc)

  abbrev answer : Outcome (Unit {0}) × W → Outcome (Unit {0})
  answer out = out.0

  sent :
      (email : String) (w : W)
      → answer (send_code mailer random env (some s) email w) ≡ returned (ok tt)
      → Sent email w
  sent email w done = elim (send_code-Sending mailer random env s email w) [
    | Sending.attempted to code w₁ w₂ res parsed bare ready drew delivery e ↦
        let fine : res.0 ≡ ok tt = cc (ap answer e) in
        let (before, started) = cooled to email code w₂ res delivery fine in
        let same : countdown_set r email before ≡ s.cd_store.set email before =
          ap (λ (c : CooldownStore W). c.set email before) (sym redis_cooldowns) in
        record {
          to = to;
          parsed = parsed;
          bare = bare;
          before = before;
          started = same ∙ started ∙ ap (λ (o : Outcome (Unit {0}) × W). (ok tt, o.1)) (sym e);
        }
    | Sending.invalid bad e ↦ absurd (cc (ap answer e))
    | Sending.cooling w₁ cooling e ↦ absurd (cc (ap answer e))
    | Sending.cooldown_unknown x w₁ unknown e ↦ absurd (cc (ap answer e))
    | Sending.no_code x w₁ w₂ ready none_drawn e ↦ absurd (cc (ap answer e))
  ]

  -- Within a minute after SendCode has sent a code to an address, counted from its end, each
  -- SendCode for that address that starts sends nothing, stores nothing and answers that a code
  -- was recently sent, while GET fails for no other reason than a missing key and nothing else
  -- writes the cooldown's key; given the documented behaviour of the Redis commands.
  pub send_code_spacing :
      (email : String) (w w₂ : W)
      → (send_code mailer random env (some s) email w).0 ≡ returned (ok tt)
      → Untouched r env v email (send_code mailer random env (some s) email w).1 w₂
      → OnlyMisses (r.get email w₂).0
      → clock w₂ < clock (send_code mailer random env (some s) email w).1 + countdown_ttl
      → send_code mailer random env (some s) email w₂
        ≡ (returned (err (errorf "verification code recently sent")), (countdown_cd r email w₂).1)
  unfolding countdown_set
  send_code_spacing email w w₂ done kept misses soon =
      let first = sent email w done in
      let after = ap (λ (o : Result (Unit {0}) × W). o.1) first.started in
      let time : clock (countdown_set r email first.before).1 ≡ clock first.before =
        l.set-clock email "" countdown_ttl first.before in
      let since = ap clock after in
      let young : ltb (clock w₂) (clock first.before + countdown_ttl) ≡ true = ground arith in
      let cooling : (countdown_cd r email w₂).0 ≡ ok true =
        cooldown_life l email first.before w₂
          (ap (λ (o : Result (Unit {0}) × W). o.0) first.started)
          (subst (λ x. Untouched r env v email x w₂) (sym after) kept) misses
        ∙ ap ok young in
      let here : s.cd_store.cd email w₂ ≡ (ok true, (countdown_cd r email w₂).1) =
        ap (λ (c : CooldownStore W). c.cd email w₂) redis_cooldowns
        ∙ ap (λ a. (a, (countdown_cd r email w₂).1)) cooling in
      elim (send_code-Sending mailer random env s email w₂) [
        | Sending.attempted to code w₃ w₄ res parsed bare ready drew delivery e ↦ absurd (cc)
        | Sending.invalid bad e ↦ absurd (bad first.to first.parsed first.bare)
        | Sending.cooling w₃ still e ↦
            let one : w₃ ≡ (countdown_cd r email w₂).1 =
              ap (λ (o : Result Bool × W). o.1) (sym still ∙ here) in
            e ∙ ap (λ x. (returned (err (errorf "verification code recently sent")), x)) one
        | Sending.cooldown_unknown x w₃ unknown e ↦ absurd (cc)
        | Sending.no_code x w₃ w₄ ready none_drawn e ↦ absurd (cc)
      ]
