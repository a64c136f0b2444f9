-- ===== src/Strings.antt =====
-- Strings (include/neixx/strings and src/neixx/strings).
pub mod Split
