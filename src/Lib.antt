-- ===== src/Lib.antt =====
-- A security agent: events come in as text, are masked, triaged and routed through a graph of agents, and end in
-- a response that may need the approval of people; scan tasks run from a queue of Redis streams, and services
-- found on the network are matched to vulnerability rules by version. The Python code is under src/.
--
-- Which file models which part:
-- - Version: src/asset_scan/scanner/version.py, all functions. A version is a list of code points. The
--   loop of `_compare_parts` is `compare_parts_loop` on fuel, and `compare_parts` gives it the lengths
--   of both texts, which is enough since every round that goes on shortens one of them.
-- - VulnMatch: `match_by_cpe` and `_rule_product_matches` of src/asset_scan/scanner/vuln_match.py, with
--   Version as its comparison.
-- - Sanitize: src/preprocessing/sanitization/mask.py, and `sanitize`, `_find_spans`, `_apply_spans` of engine.py.
--   A rule's regular expression is its function `finditer`; `none` stands for an exception.
-- - Approval: src/orchestration/subgraphs/responder/approval_store.py over the tables of src/common/db/pg.py. The
--   operations `create`, `add_vote` and `resolve` are functions on a store of rows; a run is the
--   relation `Reach`.
-- - Responder: playbook_matcher.py, hitl_handler.py and graph.py of the same folder, with `wait_result` of
--   the store as a list of what its turns see.
-- - Dispatcher: src/execution/actions/dispatcher.py and the records of base.py. There the registry, the connectors,
--   Redis and the hash of an operation are parameters.
--   Dispatcher.Connectors: the connectors of the folder connectors beside it and the registry, over the blocklist of domains.
-- - MainGraph: src/orchestration/main_graph, and `_status_from_result` of src/orchestration/runner.py. A
--   subgraph is a parameter: a result, a timeout or an exception. A run is `run_graph` on fuel; eight is
--   enough, since the route back to the vulnerability check sets the stage that bars it.
-- - VulnHunter: src/orchestration/subgraphs/vuln_hunter, the memory, the nodes and the loop. `hunt` runs on fuel, a round
--   each; ten is enough, since the code counts its rounds up to ten. The model, the linter and the sandbox are parameters.
-- - Linter: src/execution/linter/poc_linter.py over a syntax tree; the parser of Python is a parameter. `walk` runs on
--   fuel, a node each; the size of the tree is enough, since each turn takes one node from the queue.
-- - Credentials: src/agents/enroll.py and revoke.py over the tables of the tokens. A validation is one call, or cut in
--   two at its read (`admit` and `resume`) where two calls interleave.
-- - Signing: src/agents/signing.py. Ed25519, JSON and the clock are parameters; `Verifies` says what is relied on.
-- - Gateway: `send_to_agent` and `_deliver_pending` of src/agents/ws_gateway.py, with Signing in front. A call's `Link` says
--   what the socket and Redis answer it.
-- - Responses: src/agents/response_actions.py; Responses.Dispatch: src/api/routers/responses.py and `_record_response_ack` of
--   ws_gateway.py. How pydantic reads a value is the parameter `Python`.
-- - Hosts: the hosts of src/agents/store.py, in the table and in its mirror; Hosts.Manager: src/agents/manager.py, and the
--   enrolment of src/api/routers/agents.py. A call is given which stores answer it.
-- - Scan: src/orchestration/subgraphs/vulnscan/nodes.py, from the targets to the wait for the agents. The loop of `collect` runs on
--   fuel, a turn each; one more than the seconds of the time limit is enough, since a turn takes five seconds. Scan.Aggregate:
--   `aggregate`, the findings of a scan beside the stored ones.
-- - Chats: src/agents/conversation.py, the conversations about scans as rows; a patch is one call, or cut in two at its read.
-- - Rescan: src/orchestration/subgraphs/vulnscan/rescan.py and the retry queue of src/scan_engine/llm_analysis.py. The code
--   behind the mapping of the findings, which is never reached, has no definition.
-- - Upgrade: src/agents/upgrade.py, the status of an agent's upgrade as a row that events change, and the order of versions.
-- - Detection: src/detection/sigma.py, builder.py and detector.py. Python's numbers, comparisons and texts are
--   the parameter `Runtime`.
-- - Accounts: src/api/auth/jwt.py and routes.py and src/api/routers/users.py, the table of users, its handlers and the test of
--   a token.
-- - TaskStatus: the status key in src/orchestration/task_queue/runner.py and enqueue.py.
-- - TaskQueue: src/orchestration/task_queue/dequeue.py, and `_process` and `_claim_loop` of worker.py. Redis is
--   a parameter with `RedisLaws` for XADD and XACK.
-- - Prelude: shared names, tests, list and text functions.
--
-- How they meet: MainGraph calls the responder subgraph, which is Responder, and the vulnerability
-- check, which is VulnHunter, with Linter in front of its sandbox; Responder waits on the store of Approval
-- and hands its operations to
-- Dispatcher; VulnMatch uses Version; what Gateway sends goes through Signing;
-- Responses sends through Gateway; Hosts.Manager keeps the tokens of Credentials beside its hosts.
--
-- Choices: confidence values are numbers of millionths; times are seconds; texts are `String` where the
-- code compares them whole and lists of code points where it walks them. Audit logs, metrics, logs and
-- messages to people are left out, and so are the model's prompts. Concurrency is left to single steps:
-- each SQL statement or Redis command is one, in the order of the code.
--
-- Not modelled: the agents' sockets and their stores but for the hosts and conversations, the HTTP API but for the accounts, the enrolment, the response
-- actions and the dispatch of an upgrade, the scan's analysis and report, the asset scan, the
-- knowledge clients, the endpoint agent in Go and the frontend. They read and write services and the model.
pub mod Prelude
pub mod Version
pub mod VulnMatch
pub mod Sanitize
pub mod Approval
pub mod Dispatcher
pub mod Responder
pub mod MainGraph
pub mod TaskQueue
pub mod Accounts
pub mod Chats
pub mod Credentials
pub mod Detection
pub mod Gateway
pub mod Hosts
pub mod Linter
pub mod Rescan
pub mod Responses
pub mod Scan
pub mod Signing
pub mod TaskStatus
pub mod Upgrade
pub mod VulnHunter
