-- ===== src/Ingest.antt =====
-- include/ironpulse/ingest and src/ingest: the export of readings to segment files.
pub mod Crc
pub mod Serializer
pub mod Spsc
pub mod Segment
