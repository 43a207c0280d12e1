-- ===== src/Orchestration/Nodes.antt =====
-- app/orchestration/langgraph/nodes.py: the seven nodes, each an action from the graph's state to
-- its update. `errors` is in no update of a node and stays empty.
mod State
mod Helpers
mod Entry
mod Answer
mod Output
pub mod Retry
pub mod Errors
pub mod Filter
pub use State.*
unfoldable pub use Helpers.*
unfoldable pub use Entry.*
unfoldable pub use Answer.*
unfoldable pub use Output.*
