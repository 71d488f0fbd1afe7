-- ===== src/Tests.antt =====
-- Runs of the models at concrete inputs, which the theorems of the library are applied to.
mod DataPlane
mod Control
mod Persistence
mod Sinks
mod Runs
mod Starts
mod Configs
