-- ===== src/Libc.antt =====
-- The C library, libc/.
pub mod Str
pub mod Printf
pub mod Stdio
