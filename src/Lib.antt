-- ===== src/Lib.antt =====
-- Verification of the money path of the repository: a mock bank, the gateway in front of it, the two
-- together, and the agent's workflow of a transfer.
--
-- The program's parts. The bank (mock-financial-service/src/financial_service) keeps accounts, a
-- double-entry ledger, cards with deferred settlement and end-of-day snapshots in one SQLite database.
-- The gateway (backend/src/backend) lets an agent move money only in four steps: a tool call prepares
-- a transfer and fixes it in a confirmation, the user approves the confirmation, the user proves the
-- password in an authentication for it, and a tool call executes it, which calls the bank over HTTP
-- with a key made from the confirmation's id. The agent (agent/) and the frontend (frontend/) talk to
-- the gateway and never to the bank.
--
-- Files and sources.
--   Common, Common/*           tests on numbers, Python's integers, predicates on lists, and texts as
--                              lists of code points with their split and join
--   Financial/Rows             models.py and schemas.py: the tables, newest row first
--   Financial/Queries          crud.py: lookups, sums, maxima, the watermark of a card
--   Financial/Account          crud.py: create_account, get_balance, reconcile_balance
--   Financial/Transfer         crud.py: transfer, its checks, its writes, its assertions
--   Financial/Cards            crud.py: create_card, charge_card, settle_card
--   Financial/Closing          crud.py: run_daily_closing
--   Financial/Invariant        what holds of the tables between calls
--   Financial/Bank             all writing operations together, and the states they reach
--   Gateway/Rows               models/*.py: the rows of the money path
--   Gateway/Service            core/agent_exceptions.py and agent_tools/policy_constants.py
--   Gateway/Confirmation       confirmation_service.py, its repository, and of chat_service.py the decision
--                              on a confirm card and the components that it is applied for
--   Gateway/AuthContext        auth_context_service.py, its repository, auth_tool_service.py and the
--                              attempt of chat_service.py
--   Gateway/Idempotency        idempotency_service.py, its repository, idempotent_runner.py
--   Gateway/Recipient          the recipients of transfer_service.py, the candidates' repository
--   Gateway/Bank               the bank as an interface of operations and laws
--   Gateway/Transfer, Internal transfer_service.py: the conditions, prepare and execute between
--                              accounts of one user
--   Gateway/Transfer/External, transfer_service.py: prepare and execute to another person
--     ExternalExecution
--   Gateway/Setting            setting_service.py, the settings of account_repository.py and the alias
--                              policy of policy_constants.py
--   Gateway/PendingInput       pending_input_service.py and its repository: a session's open question
--   Gateway/Payments           the operations of the gateway together, and the states they reach
--   Agent/Values               agent/src/agent/workflows/workflow_support.py and state.py: JSON values,
--                              replies and updates
--   Agent/Guardrail            agent/src/agent/policy/guardrail_engine.py: rules and the decision
--   Agent/Resume               agent/src/agent/runtime/hitl.py, interaction_pause.py and
--                              resume_validation.py: what a run waits for, and its answers
--   Agent/InternalTransfer     agent/src/agent/workflows/internal_transfer.py: its steps, and in Graph
--                              its edges and runs
--   Integration                financial_client.py over the bank's endpoints fills that interface
-- Under a module of definitions stand the modules of its proofs, named for what they prove; Tests
-- modules hold a small bank and one transfer that run, and the theorems applied to them.
--
-- How the code is read. A call of the code is a function from the tables to a result and the tables
-- after the commit; a raise is a value. One function stands for one body: where Python binds a query
-- and branches on it, a helper by clauses takes the query's result. Ids, account numbers, keys and
-- texts that are only stored and compared are numbers; an idempotency key of the bank keeps the form
-- of its text, because the service makes keys of its own in the same column. UUID parsing is an
-- option, times are seconds and come in as arguments, one per read of the clock. Amounts are
-- unbounded integers as in Python; the 64-bit columns are not modelled. What the bank calls and does
-- not implement, SHA-256 and SQLite's rowids, is the record Engine, whose one law is that a new rowid
-- is above those in use. The verdict of the password hash is an argument. The client's three retries
-- under one key are one call, since the bank replays a key without effect.
-- Recursion is on lists, but for a run of the agent's graph up to the next question, which takes fuel: the
-- rank of the step where it begins, at most eight.
--
-- The agent's workflow of an internal transfer is a state machine: a step takes the workflow's data and
-- what it gets from outside (the slots that a model read, the reply of a tool, what the user entered at
-- an interrupt) to new data and the key of a route, and the graph's edges take the key to the next step.
-- A missing key of the data and None are one value. A text is one of those that the code compares with,
-- or another one with a number. The events that a step publishes are not interpreted.
--
-- A theorem about states that the gateway reaches is about the operations of Gateway/Payments: transfers,
-- decisions, authentications, settings, and transfers of other clients of the bank.
--
-- Of a guardrail's expression, the value of one clause is an argument, since its operands are parsed from
-- text, with floating-point numbers among them; the rules are a list, which the code reads from a file.
--
-- Not modelled: paged reads for display, the listing of accounts, execution contexts, events, dead letters,
-- masking and views, the agent's other workflows and its language model, and the frontend. Concurrent calls
-- are modelled as sequences of calls; a conditional UPDATE is one step.
pub mod Agent
pub mod Common
pub mod Financial
pub mod Gateway
pub mod Integration
