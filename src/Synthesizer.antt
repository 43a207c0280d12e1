-- ===== src/Synthesizer.antt =====
-- app/agents/synthesizer: the numbering of citations in a finished answer.
pub mod Citations
