-- ===== src/Admin.antt =====
-- internal/service/admin: the IP rules, the users and the tokens, as an administrator sees them.
pub mod Rules
pub mod Lists
pub mod ManageTokens
