-- ===== src/Core.antt =====
-- The core layer: configuration, and the small services that the others share.
pub mod Config
pub mod AlertLog
pub mod DeviceRegistry
