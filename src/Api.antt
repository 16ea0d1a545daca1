-- ===== src/Api.antt =====
-- The browser's access to the server (web/src/api).
pub mod Http
pub mod Client
pub mod Sse
pub mod Traffic
pub mod Dashboard
pub mod Mikrotik
