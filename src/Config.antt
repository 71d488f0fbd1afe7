-- ===== src/Config.antt =====
-- The configuration of a pipeline (crates/loadsmith-config/src).
pub mod Mask
pub mod Template
