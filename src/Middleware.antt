-- ===== src/Middleware.antt =====
-- internal/middleware: what runs before the handler of a route.
pub mod CheckIp
pub mod RateLimit
pub mod Auth
pub mod AccessLog
pub mod SlogWriter
pub mod Causes
