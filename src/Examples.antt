-- ===== src/Examples.antt =====
-- Concrete inputs, on which the theorems are applied and the definitions are run.
mod Fixtures
mod Timing
mod Output
mod Runs
mod Approvals
mod Guards
mod Streams
mod Scopes
mod Plans
