-- ===== src/Api.antt =====
-- src/api: the servers for the dashboard.
pub mod Ws
