-- ===== src/Mcp.antt =====
-- app/mcp: the approval of high-risk tool calls.
pub mod Approvals
