-- ===== src/Views.antt =====
-- The pages (web/src/views).
pub mod Dashboard
pub mod Traffic
pub mod Flows
pub mod Analytics
pub mod Settings
pub mod IncidentList
pub mod IncidentDetail
pub mod Exporters
pub mod Login
