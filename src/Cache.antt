-- ===== src/Cache.antt =====
-- src/cache/mod.rs.
pub mod Name
pub mod Entry
pub mod Moka
pub mod Variants
pub mod Dns
pub mod Reads
pub mod Verdicts
pub mod Flush
pub mod Lossless
mod Tests
pub mod History
