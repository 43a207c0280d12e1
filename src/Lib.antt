-- ===== src/Lib.antt =====
-- Verification of the multi-agent RAG backend (app/): the workflow that answers a question, its
-- security boundaries and time budget, and the stores that guard it.
--
-- How the parts interact. A request enters the workflow of app/orchestration/langgraph at
-- `privacy_permission`, which inspects the question and resolves the caller's access scope. The router
-- chooses the planner or the knowledge node; evidence is retrieved, an answer synthesized and verified;
-- the verifier may send the run back to the knowledge node once; `output_filter` applies output DLP,
-- numbers the citations and releases the answer. Each stage runs under `run_with_timeout`.
--
-- Which file models what:
--   Domain/*                     app/domain/{contracts,knowledge,workflow,events}.py, app/privacy/models.py,
--                                app/orchestration/request.py: the records that the stages pass on
--   Orchestration/Timeout        app/orchestration/timeout_control.py (Bounds: its theorems)
--   Orchestration/Policy         app/orchestration/policies.py
--   Orchestration/Stage          `_run_stage` of app/orchestration/langgraph/nodes.py, as an action on the
--                                clock, the budget, the reported events and the feedback of a run
--   Orchestration/Services       the `WorkflowServices` that the nodes call, as parameters
--   Orchestration/Nodes/*        the nodes and the helpers of nodes.py, function by function
--   Orchestration/Workflow       app/orchestration/langgraph/workflow.py and `_run_workflow` of engine.py
--   Orchestration/Post           the rules by which the theorems go through an action
--   Privacy/Dlp                  app/privacy/dlp.py and `mask_context` of app/privacy/service.py
--   Privacy/Streaming            app/privacy/streaming.py: an answer that is redacted while it is written
--   Knowledge/Context            app/knowledge/context.py: who wins a conflict, and the token budget
--   Planning/Dependencies, /Layers  `TaskPlan.validate_dependencies` and `execution_layers` of
--                                app/domain/contracts.py
--   Auth/OauthState              app/services/auth/oauth_state.py
--   Query/Guard                  `_acquire_memory` of app/services/query/guard.py, cut into atomic actions
--   Orchestration/EventStore     app/orchestration/execution_events.py
--   Orchestration/AnswerStream   app/orchestration/answer_stream.py
--   Security/AccessScope, /Rbac  app/services/security/{access_scope,rbac}.py
--   Synthesizer/Citations        app/agents/synthesizer/citations.py
--   Mcp/Approvals                app/mcp/approvals.py over app/mcp/contracts.py
--   Security/RateLimiter         app/services/security/rate_limiter.py
--   Security/Quota               app/services/security/quota.py
--   Runtime/Cache, /Breaker      app/services/runtime/resilience.py
--   Common, OrderedDict          shared names and lemmas, and Python's dict in insertion order
--   Examples/*                   concrete inputs: tests by computation, and the theorems applied
--
-- Conventions. Instants and durations are natural numbers of microseconds, so `int(seconds * 1000)` is
-- a division by 1000; every operation that reads a clock is given its reading, and one that reads it
-- several times in a row is given one. Where the source reads the clock before it takes a lock, the
-- step is the block under the lock, given that reading. An exception is a value of `Error`, or `none`
-- where an operation raises one kind only. A confidence is a natural number that no modelled code
-- computes with. LangGraph gives up after `recursion_limit` nodes: a run is a recursion on that number,
-- and ten visits are enough for the seven nodes and one retry of three. The services may answer
-- differently at each visit; they take any time and may raise anything.
--
-- Loops. Kahn's algorithm runs on as much fuel as the plan has tasks and one more, the layers of a plan
-- on as much as it has tasks, and the eviction of login states on as much as the memory has entries:
-- each round processes a new task or drops an entry.
--
-- Parameters. Agents, retrievers, tools, the workflow's access scope resolver, the regular expressions of
-- the redactors and of the marker syntax, UTF-8, SHA-256 and JSON, paths of the file system, the commands
-- of a Redis client, and slices of texts are arguments of the definitions that use them.
--
-- Not modelled. The HTTP API, ingestion, retrievers, model calls, persistence and metrics, since they are
-- input and output; field validators of the contracts; image masking; logging; the Redis side of the
-- query guard. Threads are not modelled as such: operations under one lock are atomic steps, and sequences
-- of steps are arbitrary.
pub mod Common
pub mod OrderedDict
pub mod Domain
pub mod Privacy
pub mod Knowledge
pub mod Planning
pub mod Auth
pub mod Query
pub mod Synthesizer
pub mod Orchestration
pub mod Mcp
pub mod Security
pub mod Runtime
pub mod Examples
