-- ===== src/Knowledge.antt =====
-- app/knowledge: the context that the answer is written from.
pub mod Context
