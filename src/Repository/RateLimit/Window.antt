-- ===== src/Repository/RateLimit/Window.antt =====
-- internal/repository/ratelimit_repo.go, the sliding window: the requests of one address as a
-- relation on worlds, and the bound on what is allowed in any window.
pub mod Counts
pub mod Script
pub mod Invariant
pub mod Bound
