-- ===== src/Identity.antt =====
-- internal/service/identity: accounts, sessions, invitation tokens and email codes.
pub mod Account
pub mod Email
pub mod Session
pub mod ConsumeToken
