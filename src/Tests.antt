-- ===== src/Tests.antt =====
-- Concrete runs of the program: a Redis in memory, requests and histories.
pub mod Memory
pub mod RateLimit
pub mod Routes
pub mod Sessions
pub mod Tokens
pub mod Accounts
pub mod Codes
pub mod Rules
pub mod App
pub mod Logs
pub mod Connect
pub mod Networks
pub mod Settings
pub mod Output
pub mod Verdicts
pub mod Overlaps
pub mod Startup
pub mod Gateway
pub mod Repositories
