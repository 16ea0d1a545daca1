-- ===== src/Components.antt =====
-- The shared components (web/src/components).
pub mod Chart
pub mod Indicator
