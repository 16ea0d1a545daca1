-- ===== src/Tests.antt =====
-- Runs of the definitions on concrete inputs, and the theorems at inputs that meet their
-- hypotheses.
mod Api
mod Stores
mod Dashboard
mod Traffic
mod Chart
mod Format
mod Flows
mod Pages
mod Server
mod Detect
mod Records
