-- ===== src/Util.antt =====
-- The small utilities of crates/rfrp-common/src/util.
pub mod Retry
pub mod RateLimit
pub mod Counting
pub mod Http
pub mod Addr
