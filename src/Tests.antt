-- ===== src/Tests.antt =====
-- Concrete runs of the definitions, and the theorems at concrete inputs.
mod Tracing
mod Tables
mod Clients
mod Access
mod Settings
mod Reports
