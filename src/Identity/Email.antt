-- ===== src/Identity/Email.antt =====
-- internal/service/identity/email.go: sending and checking registration codes.
pub mod Sending
pub mod Spacing
pub mod Message
pub mod Code
use Prim.Native.String.{◌++◌}
use ktauth.Prelude.{
  ℕ, String, Bool, true, false, ◌||◌, not, Option, none, some, str_eq, if◌then◌else◌,
}
use ktauth.Errors.{errorf}
use ktauth.Effects.{Result, ok, err, on, Op}
use ktauth.Redis.{Env}
use ktauth.Net.Parse.{trim_space}
use Message.{mail_message}
use Code.{Random, generate_code}

pub record RegistrationCodeStore (W : Type 0) : Type 0 where
  pub set : String → String → Op W (Unit {0})
  pub validate : String → String → Op W Bool

pub record CooldownStore (W : Type 0) : Type 0 where
  pub set : String → Op W (Unit {0})
  pub cd : String → Op W Bool

-- net/mail.Address: its field Address and its method String.
pub record Address : Type 0 where
  pub address : String
  pub text : String

-- net/mail, net/smtp, and the date of a mail. SendMail has the server, the login (none where it is
-- nil), the sender, the receiver and the message.
pub record Mailer (W : Type 0) : Type 0 where
  pub parse_address : String → Result Address
  pub send_mail :
      String → Option (String × String × String) → String → String → String → Op W (Unit {0})
  pub date : W → String

pub record EmailService (W : Type 0) : Type 0 where
  pub code_store : RegistrationCodeStore W
  pub cd_store : CooldownStore W
  pub host : String
  pub port : String
  pub username : String
  pub password : String
  pub from : Address

-- A method of *EmailService whose receiver may be nil: a read of a field then panics.
pub data Outcome (A : Type 0) : Type 0 where
  returned : Result A → Outcome A
  panicked : Outcome A

module _ {W : Type 0} (mailer : Mailer W) where
  -- NewEmailService; none is a nil pointer
  unfoldable pub new_email_service :
      RegistrationCodeStore W
      → CooldownStore W
      → String
      → String
      → String
      → String
      → String
      → Option (EmailService W)
  new_email_service codes cds host port username password from_str =
      if str_eq host "" || (str_eq port "" || str_eq from_str "")
      then none
      else on (mailer.parse_address from_str) (λ e. none)
          (λ from. some (record {
            code_store = codes;
            cd_store = cds;
            host = host;
            port = port;
            username = username;
            password = password;
            from = from;
          }))

module _ {W : Type 0} (mailer : Mailer W) (random : Random W) (env : Env W) where
  -- The login is nil where no user name is set.
  login : EmailService W → Option (String × String × String)
  login s = if str_eq s.username "" then none else some (s.username, s.password, s.host)

  -- SMTP first, then the stored code, then the cooldown.
  pub deliver : EmailService W → Address → String → String → Op W (Unit {0})
  unfolding login
  deliver s to email code w =
      let (id, w₁) = env.new_uuid w in
      let message = mail_message s.from.text to.text (mailer.date w) id s.host code in
      let (sent, w₂) =
        mailer.send_mail (s.host ++ (":" ++ s.port)) (login s) s.from.address to.address message
          w₁ in
      on sent (λ e. (err e, w₂))
        (λ u.
          let (stored, w₃) = s.code_store.set email code w₂ in
          on stored (λ e. (err e, w₃)) (λ u. s.cd_store.set email w₃))

  -- SendCode behind the test of the address
  pub send_new_code : EmailService W → Address → String → Op W (Unit {0})
  unfolding deliver
  send_new_code s to email w =
      let (cooling, w₁) = s.cd_store.cd email w in
      on cooling (λ e. (err e, w₁))
        (λ in_cooldown.
          if in_cooldown
          then (err (errorf "verification code recently sent"), w₁)
          else (let (code, w₂) = generate_code random 6 w₁ in
              on code (λ e. (err e, w₂)) (λ k. deliver s to email k w₂)))

  -- SendCode
  unfoldable pub send_code : Option (EmailService W) → String → W → Outcome (Unit {0}) × W
  unfolding send_new_code
  send_code service email w =
      on (mailer.parse_address email) (λ e. (returned (err (errorf "invalid email address")), w))
        (λ to.
          if not (str_eq to.address email)
          then (returned (err (errorf "invalid email address")), w)
          else elim service [
            | none ↦ (panicked, w)
            | some s ↦ (let (sent, w₁) = send_new_code s to email w in (returned sent, w₁))
          ])

-- VerifyCode
unfoldable pub verify_code :
    {W : Type 0} → Option (EmailService W) → String → String → W → Outcome Bool × W
verify_code service email code w =
    if str_eq (trim_space email) "" || str_eq (trim_space code) ""
    then (returned (err (errorf "email and code are required")), w)
    else elim service [
      | none ↦ (panicked, w)
      | some s ↦ (let (valid, w₁) = s.code_store.validate email code w in (returned valid, w₁))
    ]
