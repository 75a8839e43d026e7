-- ===== src/Analytics.antt =====
-- The analytics layer: anomaly detectors, the rule engine and the building of rules.
pub mod Detector
pub mod RuleEngine
pub mod Factory
