-- ===== src/Handlers/EmailCodes/Spent.antt =====
-- internal/handler/user_handler.go and internal/service/identity/email.go over
-- internal/repository/register_repo.go: VerifyEmailCode, and RegisterUser with the same code.
use ktauth.Redis.{Redis}
use ktauth.Repository.Keys.{register_set, register_validate}
use ktauth.Identity.Email.{RegistrationCodeStore}
use ktauth.Handlers.Register.{Register}

-- RegisterRepo, as main.go gives it to NewEmailService.
abbrev pub registration_codes : {W : Type 0} → Redis W → RegistrationCodeStore W
registration_codes r = record { set = register_set r; validate = register_validate r }
