-- ===== src/Handlers.antt =====
-- internal/handler: the handlers at the end of each route.
pub mod EmailCodes
pub mod Register
pub mod Login
pub mod IpRules
pub mod Tokens
