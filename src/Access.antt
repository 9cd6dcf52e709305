-- ===== src/Access.antt =====
-- internal/service/access: which rule an address has, and how often it may ask.
pub mod IpService
pub mod RateService
pub mod Cooldown
