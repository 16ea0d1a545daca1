-- ===== src/Stores.antt =====
-- The shared stores (web/src/stores).
pub mod Auth
pub mod Incidents
