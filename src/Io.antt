-- ===== src/Io.antt =====
-- Buffers for IO (include/neixx/io/io_buffer.h and src/neixx/io/io_buffer.cpp).
pub mod Drainable
pub mod Pool
mod Tests
