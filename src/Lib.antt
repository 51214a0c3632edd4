-- ===== src/Lib.antt =====
-- A model of the registry of codex-threadhub, a control plane that hands the tasks of a Run to coding
-- agents, and the theorems that make it correct.
--
-- The program keeps its state in SQLite: tasks with their claims and dependencies, leases, a queue of
-- the Runs to prepare, turn dispatches, result deliveries, an integration journal, context claims and
-- notifications (src/registry.js). The statuses and the transitions between them are in
-- src/domain-states.js, and the registry asks them before most writes. Workers claim a task, run it
-- under leases through turn dispatches, and report on it by their claim token; a failure is retried
-- as src/retry-policy.js decides.
--
-- Before a task is queued its graph is checked for cycles, and its request becomes an execution
-- contract (src/execution-contracts.js), with the permissions of the thread that asks
-- (src/parent-permissions.js) and within the manifest of its Project Run (src/global-runs.js). The
-- router (src/router.js) finds it a thread, and the completion evaluator
-- (src/completion-evaluator.js) judges its result by the evidence of the turn.
--
-- The files and what they model:
--   * Base: options, results, lists, SQL's three-valued logic, and tables as lists of rows with
--     UPDATE, UPSERT, ORDER BY and the count of the rows that pass a test. Ensures holds the rules by
--     which what a method ensures of its value follows from its parts, as `ensures_rules`; Results
--     has those by which it returns, as `returns_rules`.
--   * States: src/domain-states.js. Machine is the shared transition function; Run, GlobalRun, Task,
--     Agent, Lease, Delivery and Dispatch are its tables, Derive the aggregates, Semantics the table
--     of meanings; Transitions and Outcomes hold the theorems.
--   * Retry: src/retry-policy.js, with its laws in Retry/Laws.
--   * Registry: the rows of src/registry.js that the claims of tasks read, and its event log.
--   * Tasks: the claim methods of src/registry.js. Guards is the WHERE of claimTask; Claim, Complete,
--     Finish, Validate and Wait are the methods by which a claim begins, goes on and ends; Calls is
--     one type for all reports of an owner. Blocked and Refresh are refreshBlockedTasks. Fencing,
--     Claiming, Exclusive, Attempts, Budget, Legal, Rounds and Ends hold the theorems: Rules and Rows
--     are a rule by which a relation between rows extends to all calls at once.
--   * Graph: validateTaskGraph of src/registry.js (Tasks) and validateGlobalProjectGraph of
--     src/global-runs.js (Projects). Both run the depth-first search of Search; Order, Visits, Cycles
--     and Accepts prove it.
--   * Contracts: src/execution-contracts.js. Compile is compileExecutionContract, Failures the failure
--     of a refused contract; Checked, Safe, Compiled and Granted hold the theorems.
--   * Permissions: src/parent-permissions.js, which hands its tasks to Contracts.
--   * Authorization: compileAuthorizationManifest and its set, of src/global-runs.js.
--   * Evaluation: src/completion-evaluator.js. Inputs, Ledgers and Judgement are its definitions,
--     Settled follows the evidence through its steps.
--   * Progress: workProgress of src/work-status.js.
--   * Routing: select of src/router.js; Policy is src/dispatch-policy.js, Lifecycle the table of
--     src/thread-lifecycle.js.
--   * Runs: updateRun, archiveRun, unarchiveRun, refreshRun, failPreparedRun, releaseStagedRun and
--     listTasks of a Run in src/registry.js. Rows is the table, Release the start, Refresh the end
--     that the tasks decide, Prepared the failure of a Run that has not started, Calls every call as
--     one type. At most 1,000 tasks of a Run are listed, as in the code.
--   * Agents: updateAgent of src/registry.js, with the lifecycle of its thread. Expired is
--     recoverExpiredAgentLeases, over the leases on agents and the agents, which Recovers proves.
--   * Cancel: cancelTask and cancelRun of src/registry.js, over the tables of Runs, Dispatches, Leases
--     and Agents together (Plane). Returns proves that no call in cancelTask throws; Freed, Listed,
--     Cleared and Barred follow the leases and the dispatches through its loops by the rule of
--     Base/Sweep; Rows, Loop and WholeRun follow the tasks of a Run. At most 100 leases of a task are
--     listed, as in the code.
--   * Queue: the project queue of src/registry.js (enqueueProjectPreparation to
--     failProjectPreparation). Ready is the condition of a claim, Calls are the histories.
--   * Leases: the leases on worktrees, agents and dashboards of src/registry.js.
--   * Notices: src/notification-policy.js and createNotification of src/registry.js. Receipts is
--     listNotifications and what marks a notification as read, with SQL's LIKE as a parameter; Once
--     and Read hold the theorems.
--   * Deliveries: the control deliveries of src/registry.js, which call Notices. Rows is the table and
--     its INSERT, Moves what happens to a delivery that is there.
--   * Dispatches: the turn dispatches of src/registry.js: claims, transitions, heartbeats and
--     cancellations.
--   * Journal: the integration journal of src/registry.js. Calls are its histories.
--   * Context: src/context-claims.js, and activateContextClaim of src/registry.js. Written follows
--     its updates.
--
-- How the code is read: a method is a function on a table, or on a record of the tables that it
-- touches, and returns the tables with the row that it returns. A method that throws is a Result, and
-- a history keeps the state where a call throws. `UPDATE … RETURNING` is update_where with the row of
-- returned; a row is found by its key as `find`. Each method is one step, as SQLite runs it. The
-- clock is read once for a call and is a number of milliseconds, which the source writes as ISO texts
-- of one width; random tokens and ids are arguments, and so are the SHA-256 digests. JSON columns are
-- records of the properties that are used, or their text. Events are kept without their payloads.
-- The gate of Global Runs (assertGlobalTaskGate) is an argument of claim_task. Regular expressions,
-- the canonical form of a path and the ranking of threads are arguments too; a property that the
-- source checks for its type has that type, so that these checks have nothing to refuse. Unions of
-- texts, such as the kinds of a task, stay texts where the source compares them with a list.
--
-- Every loop is over a list, but for two. The rounds of refreshBlockedTasks run on fuel, of which one
-- more than there are blocked tasks is enough. The calls of the depth-first search nest on fuel, of
-- which one more than there are nodes is enough, since no node is entered while it is being visited.
-- Numbers are native and unbounded, and the subtractions of the source stop at 0 where it writes
-- Math.max or where the guard before them makes them exact.
--
-- Not modelled: the creation of task graphs, Runs and agents, plans, handoffs of Global Runs,
-- memories and the recovery after a restart in src/registry.js; the
-- classifiers of failures and of commands, which read texts by regular expressions; the scores of
-- the router, planning and dispatching; git, processes, sockets, the tool server and the views.
pub mod Base
pub mod States
pub mod Retry
pub mod Registry
pub mod Tasks
pub mod Queue
pub mod Leases
pub mod Notices
pub mod Deliveries
pub mod Dispatches
pub mod Context
pub mod Journal
pub mod Graph
pub mod Contracts
pub mod Permissions
pub mod Evaluation
pub mod Authorization
pub mod Progress
pub mod Routing
pub mod Agents
pub mod Cancel
pub mod Runs
