-- ===== src/Domain.antt =====
-- app/domain: the contracts that the components exchange. A frozenset is a list read through
-- membership; a score or confidence between 0 and 1 is a number of millionths.
use multi_agent_rag_local.Common.{◌*◌}
mod Knowledge
mod Contracts
mod Workflow
mod Request
unfoldable pub use Knowledge.*
unfoldable pub use Contracts.*
pub use Workflow.*
pub use Request.*
