-- ===== src/Lib.antt =====
-- FinChat: the parts of a bank's assistant that decide who may act, what a conversation may do,
-- how a loan is decided and where a question goes.
--
-- Safety, Lease, Oauth, Loans, Process, Answers, Mcp, Chat, Transactions, Steward, Reconcile
-- and Web model parts of the services of the repository. Base holds what they share: lists over the native
-- numbers (Base/Lists), dictionaries (Base/Dict), integers (Base/Integers) and Boolean tests.
--
-- * Safety (ui/safety_signals.py, and `_safety_record`, `_safety_fold_concurrent` and
--   `_safety_screen` of ui/server.py). Signals, State and Evaluate hold `TurnSignals`,
--   `SessionState.advance` and `evaluate`; Rows holds `evidence_row` and `state_from_rows`; Verdict
--   holds `parse_verdict` and `classify`; Screen holds the screening of one turn under a lease. A
--   session (Session) is a sequence of `evaluate` and `advance`. A confidence is a number of
--   millionths, an instant a number of microseconds. The thresholds are a record, an argument
--   throughout.
-- * Lease (ui/session_lock.py). Backend is the contract of the two backends, Memory and Firestore
--   fill it, Service holds `backend()`, Acquire the loop of `acquire`. Runs are sequences of atomic
--   calls by any requests, so that they cover every interleaving. An instant is a number of
--   microseconds. What Screen folds in is what a drain returned.
-- * Oauth (products/mcp_auth/oauth.py and main.py). Documents is the database's contract, Store the
--   tables of `Store`, Config and Requests the checks, Server the four endpoints that change state.
--   What other instances take between the `get` and the `delete` of a record is a parameter of the
--   collection. An instant is a number of seconds.
-- * Loans (products/loans/api/risk.py, store.py and main.py). Risk holds `score_risk` and
--   `principal_reasons`, Store the tables of `LoanStore` in memory, Api the handlers that submit a
--   loan, decide on it and notify the customer. An amount is a number of cents, a debt-to-income
--   ratio a number of thousandths.
-- * Process (products/process/api/analyst_routing.py and overview.py). Words holds the keyword
--   tables, Routing the scores, `parse_intent` and `classify`, Overview `decide_next_action` and
--   `build_overview`. A balance is a number of cents with its sign.
-- * Answers (ui/masked_results.py and ui/analytics_denial.py). Masked holds `empty_columns` and
--   `annotate`, Denial `analytics_denied`.
-- * Mcp (mcp_server/auth.py, caller.py and server.py). Token is the contract of the token libraries,
--   Auth holds `verify` with the cached keys, Caller `current` and `require_staff`, Server the
--   middleware and the tool `ask_analytics`, Registry the agents of scripts/agents_catalog.py. The
--   tokens that it accepts are those of Oauth, and the tool's routing is that of Process. An instant is a number of seconds.
-- * Chat (ui/server.py, `agent_proxy` and `_agent_turn`, ui/armor.py and ui/control_events.py). Armor
--   reads Model Armor's answer, Events builds and routes control events, Message holds what a message
--   meets and what it is answered, Turn is one message on its way: the wait for the lease, the screenings, the agent, the engine of Safety by Screen, and the
--   release. The lease is on the shared backend or, where that raises, on the table of the process,
--   both by the contract of Lease.Backend; which calls raise is an argument, and so is what others do
--   with the two tables meanwhile, as lists of events of Lease.Runs.
-- * Transactions (products/transactions/pipeline). Validate holds `parse_and_validate` for a decoded
--   payload, Bundle the two functions of the Beam graph that a message meets. An amount is a number
--   of cents, or infinite; the range of `float` is a parameter.
-- * Steward (products/steward/harness). The plan, assessment and proposal of a finding stand in
--   Steward itself, and Run holds `steward_run`, with the reviews that were sent and not yet
--   received as its mailbox.
-- * Reconcile (scripts/reconcile_controls.py): the counts of the evidence and of what ServiceNow
--   received, and the verdict on them.
-- * Web (ui/server.py): `_verify_user`, the persona gates, and the two proxies that tell a backend
--   who the approver is, `loan_proxy` and `steward_proxy`. An instant is a number of seconds.
--
-- Bounds: no definition runs on fuel. The loop of `acquire` is recursion on the list of its rounds,
-- each with what the backend did and what the clock said; so is the wait of the agent path.
--
-- Parameters: the database of the leases and the collections of the authorization server, whose
-- calls may fail; digests, URL parsing and lower case of Python's library; the synthetic credit
-- profile and the overdrafts that the transactions API reports; PyJWT and google-auth; the model's
-- answers and what Model Armor and the agent say; random values and instants are
-- arguments of the operations.
--
-- Not modelled: decoding JSON, the text of prompts and answers, reading and writing BigQuery,
-- the signing of tokens, the Beam runtime, DBOS, environment variables, and the other services of
-- the repository.
pub mod Base
pub mod Safety
pub mod Lease
pub mod Oauth
pub mod Loans
pub mod Process
pub mod Answers
pub mod Mcp
pub mod Chat
pub mod Transactions
pub mod Steward
pub mod Reconcile
pub mod Web
