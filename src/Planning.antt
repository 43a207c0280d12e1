-- ===== src/Planning.antt =====
-- app/domain/contracts.py: the plan that the planner writes, as a dependency graph of tasks.
pub mod Dependencies
pub mod Layers
