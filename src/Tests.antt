-- ===== src/Tests.antt =====
-- Runs of the development's definitions on small data, at which its theorems apply.
pub mod ButexRuns
pub mod ControlRuns
pub mod GroupRuns
pub mod TaskRuns
pub mod SchedRuns
pub mod ApiRuns
pub mod WorkerRuns
pub mod WorkerEnds
pub mod ForegroundRuns
