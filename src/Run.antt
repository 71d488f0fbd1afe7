-- ===== src/Run.antt =====
-- A run of a pipeline (crates/loadsmith-core/src/runner.rs).
pub mod Failing
pub mod DataPhase
pub mod Recovery
