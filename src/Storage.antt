-- ===== src/Storage.antt =====
-- The storage layer: in-memory series, write-ahead logs and their retention.
pub mod Ring
pub mod Wal
pub mod Retention
pub mod Series
