-- ===== src/Url.antt =====
-- URLs (src/neixx/url).
pub mod Encoding
pub mod Chars
pub mod Parser
pub mod Resolve
mod Tests
