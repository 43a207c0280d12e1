-- ===== src/Orchestration.antt =====
-- app/orchestration: the budget, the stage runner, the workflow and its graph.
pub mod Timeout
pub mod Policy
pub mod Stage
pub mod Post
pub mod Services
pub mod Nodes
pub mod Workflow
pub mod EventStore
pub mod AnswerStream
