-- ===== src/Http.antt =====
-- HTTP clients (include/neixx/net/http and src/neixx/net/http).
pub mod Text
pub mod ClientPool
pub mod RedirectHandler
pub mod Redirects
mod Tests
