-- ===== src/Core/Config.antt =====
-- The configuration: its structures, texts, parser, environment and validation.
pub mod Types
pub mod Failure
pub mod Text
pub mod Parser
pub mod Devices
pub mod Overrides
pub mod Validate
pub mod Load
