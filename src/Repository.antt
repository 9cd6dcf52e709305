-- ===== src/Repository.antt =====
-- internal/repository: the data access layer over Redis and PostgreSQL.
pub mod RateLimit
pub mod IpCache
pub mod Keys
pub mod Tokens
pub mod IpRepo
pub mod UserRepo
pub mod Rows
