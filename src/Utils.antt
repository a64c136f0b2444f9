-- ===== src/Utils.antt =====
-- The utilities of the C library (src/nei/utils).
pub mod Base64
mod Tests
