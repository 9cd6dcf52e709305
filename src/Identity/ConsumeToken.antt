-- ===== src/Identity/ConsumeToken.antt =====
-- internal/service/identity/consume_token.go: the invitation tokens, for a registration.
use ktauth.Prelude.{String, Bool}

pub record TokenConsumer (W : Type 0) : Type 0 where
  pub consume : String → W → Bool × W

-- ConsumeTokenService.Consume
abbrev pub consume_token : {W : Type 0} → TokenConsumer W → String → W → Bool × W
consume_token consumer token w = consumer.consume token w
