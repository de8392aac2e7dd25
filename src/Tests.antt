-- ===== src/Tests.antt =====
-- Runs of the definitions and of the theorems at concrete inputs.
mod JsonRuns
mod ParamsRuns
mod PoolRuns
pub mod QueryRuns
mod FormRuns
mod ConnectorRuns
mod AdminRuns
