-- ===== src/Lib.antt =====
-- Verification of the core of the Spidey backend (backend/src/spidey): the agent runtime, from the
-- requests that steer a run to the tools that it calls, the model gateway that its nodes call, the event
-- plane that carries what happened, the tools that edit a workspace, and its users: authentication and
-- administration.
--
-- The parts and how they interact. A user creates a run and steers it by requests; each is a method of
-- the run service inside one database transaction. The service checks the owner and the life cycle,
-- writes the run store, puts events into the outbox and queues the worker's task. The worker runs the
-- graph: nodes that plan, code, review, test and deliver, with pauses where a human decides. A node
-- calls tools through the registry, which asks for a human's approval before anything is changed; the
-- approvals are rows of the store that the service decides. Every model call passes the gateway, which
-- checks a budget, walks a chain of providers and accounts for the answer by an event. Events are rows of
-- an outbox; a relay publishes them to Redis Streams, from where consumer groups bring them into the
-- durable log and into counters. Users come in through the
-- authentication service: a login is guarded by a limiter and a lockout, and refresh tokens rotate in
-- families.
--
-- Which file models what:
--   Base            lists, texts, tables of rows, tests into Bool; Base/Action: methods that keep a
--                   state and may raise (`Action`).
--   Platform        platform/errors.py (Errors) and platform/events/contracts.py (Events).
--   Platform/Outbox, Streams, Relay, Consumers  the modules of platform/events under these names, and
--                   the task of workers/tasks/events.py. EventPlane has the steps that their processes
--                   take, crashes included, and the abstract log; its children hold the invariant, the
--                   refinement, what a round of pumps delivers and what a crash loses.
--   Identity/Roles  the roles of identity/domain/models.py.
--   Identity/Users  the tables of identity/infrastructure/repositories.py and platform/audit.py.
--   Identity/Lockout identity/infrastructure/redis_guard.py: the streaks of failures and the locks.
--   Identity/Auth   identity/application/auth_service.py: `login` in Auth, `refresh`, `logout` and
--                   `change_password` in Auth/Sessions, with the request's transaction and the writes
--                   that commit beside it; Rotation and Login hold what they promise.
--   Identity/Admin  identity/application/user_service.py behind api/v1/users.py, with
--                   `get_current_user` and `require_role` of api/deps.py; Keeping, Bootstrap and
--                   Deletion hold what they promise.
--   Workspaces/Paths workspaces/domain/paths.py, with the containment in Paths/Containment.
--   Workspaces/Edits workspaces/application/edits.py over the port of workspaces/domain/ports.py.
--   Llm/Chat        llm/domain/chat.py.
--   Llm/Routing     llm/domain/routing.py and capabilities.py, llm/application/registry.py.
--   Llm/Ledger      llm/infrastructure/budget.py and cache.py; Llm/Capture: a captured interaction.
--   Llm/Calls       llm/application/gateway.py `_invoke_chain`: retries and fallback.
--   Llm/Gateway     llm/application/gateway.py `complete`, and llm/infrastructure/capture.py; Chain,
--                   Settling, Metering, Promises, Spending and Replay hold what it promises. Llm/Streaming is
--                   `stream`, and Llm/Assembled compares the two.
--   Memory          memory: Records is domain/longterm.py, Gate domain/gate.py, Store
--                   infrastructure/memory_store.py and Service application/memory_service.py with the
--                   points of infrastructure/vector_index.py.
--   Agents/Runs     agents/domain/runs.py: statuses, transitions, plans, budgets, approvals.
--   Agents/Tools    agents/domain/tools.py: side effects, trust tiers, contexts, results.
--   Agents/Store    agents/infrastructure/run_store.py: the three tables as lists of keyed rows; each
--                   method of PostgresRunStore is a function of the same name.
--   Agents/Service  agents/application/run_service.py: each method of RunService is an `Action` on the
--                   tables, the outbox and the task queue, under its own name.
--   Agents/Requests api/deps.py `get_session` and the endpoints of api/v1/runs.py: a request that
--                   raises is rolled back, but what it put on the task queue stays.
--   Agents/Registry agents/application/registry.py: the gates of `invoke` in their order, `_run`,
--                   `_sanitize` and the events; the log lists the calls that reached a provider.
--   Agents/CodeEdit agents/infrastructure/code_edit.py: the tools that read and edit a workspace.
--   Agents/Graph    agents/graph: state.py (`RunState`), nodes.py in the files Planning, Coding,
--                   Review and Delivery, and build.py with the routes of nodes.py in Machine.
--                   Frames, Termination, Licence, Proposals and Outcome hold what the nodes keep, that
--                   the graph stops, which tools it calls, which approvals it records and how it ends.
--   Workers/AgentRun workers/tasks/agent_run.py: the task that begins or resumes a run's graph, commits
--                   what it wrote, or rolls it back and marks the run failed.
--   Execution/Policy execution/domain/policy.py: the admission of commands.
--   Checks          the code at concrete inputs.
--
-- Fuel. `drive` is one call of LangGraph's `ainvoke`: it runs nodes until an interrupt, the end or an
-- exception. Its fuel counts nodes. The number of nodes left is bounded by the rounds of fixes, the
-- steps of the plan and the rounds of review that are left (`nodes_left` in Agents/Graph/Termination);
-- the worker resumes a graph with one more than that, and begins one with two. The retries of the
-- gateway recur on the rounds left, `max_retries + 1` for each model.
--
-- Parameters. JSON documents, the schema validator, `repr`, the text screens, the tool providers, the
-- model gateway, git, the pull-request delivery, memory recall, the password hasher, the token issuer,
-- the rate limiter, the file systems of the workspaces, `difflib`, `hashlib`, `secrets`, `str.lower`, the clock and fresh identifiers. Each
-- answers a call by a function of the tick at which it is made, so that nothing is assumed of two
-- answers. The embedding of a text and the neighbours of a vector are functions too, and so are the
-- operations on floats, where a confidence is one. Identifiers (uuid), datetimes and latencies are numbers; a cost is a number of millionths of
-- a dollar, a time limit one of milliseconds. Whether Redis and the database answer the gateway, and how
-- a write to Redis that fails ends, are functions of the time (`Gateway` in Llm/Calls). A read of a
-- stream with nothing to read times out, since both pumps block without a limit. A provider answers by the time of the call and takes a
-- time for it. Redis Streams are a record of commands with the laws that Redis documents (`Redis` in
-- Platform/Streams), and the counters of Prometheus one with the law of `inc`; the JSON text of an event is an opaque type with `dumps` and `validate`, of which
-- the theorems assume that validating gives back what was dumped.
--
-- Not modelled: the chat and indexing tasks, the rest of the workspaces, code intelligence, the
-- conversations, the sandboxes, the providers' adapters, the HTTP layer and the web client. The regular expressions of the text screens are third-party engines' work.
pub mod Base
pub mod Platform
pub mod Identity
pub mod Llm
pub mod Memory
pub mod Agents
pub mod Workers
pub mod Execution
pub mod Workspaces
pub mod Checks
