-- ===== src/Lib.antt =====
-- A model of the core of the wbme platform and the theorems that make it correct.
--
-- The platform is a set of NestJS services and a React front end around one PostgreSQL database.
-- Approval requests of three schemas share one engine; background tasks are rows of one table that
-- schedulers and workers claim under leases; stock moves through batches; administrators edit the
-- navigation tree; every table of the front end sends filters and sorts that one module compiles.
-- The parts meet in the database: the timeout scan is itself a background task, and the tables are
-- explicit states here.
--
-- Approval (packages/approval/src)
--   Types, StateMachine: types.ts, state-machine.ts. Scope: scope.ts. PendingLimit: pending-limit.ts.
--   Timeout: timeout.ts, a scan over the tables of three schemas; a hook is a parameter.
-- Tasks (packages/tasks/src, apps/worker/src)
--   Types, Ops: types.ts, constants.ts, status-transitions.ts, outbox.ts, one function per
--   statement. Rows: histories, any sequence of the operations by any processes. Finality,
--   Validity, Exclusion, Batch: what holds of histories. Worker: handleJob of
--   background-task-worker.ts. Scheduler: outbox-scheduler.ts. Writer:
--   task-writer.ts.
-- Inventory (apps/asset/src/shared/inventory-core.ts)
--   Fifo: allocateFifoBatches. Items: lockInventoryItems, cleanupEmptyItem, lockOrCreateItem.
--   Warehouse: loadWarehouseWithPath. Flows: writeStockFlow. Quota: computeCycleKey of
--   apps/asset/src/shared/quota-period.ts.
-- Overtime (apps/hr/src/modules/overtime)
--   Overlap: overtime-overlap.ts. Months: month-filter.ts, over the filters of TableQuery.
--   Submission: overtime-date-window.ts and submit of overtime-submission.service.ts, with the rows
--     read ahead of the transaction apart from those in it; the calendar and the accounts are parameters.
-- Menu (apps/web/src/menu-config)
--   Editor: editor-state.ts, the tree behind the menu administration page, in Offset
--   moveEditorNodeByOffset, in Serialize serializeEditorState.
--   Merge: merge.ts, the default groups (configFromDefaults, Identity); its Parents: the search of
--   resolveMenuConfig for the parents of groups (Climb, Termination, Respect); its Resolve:
--   resolveMenuConfig as a whole (Placement: where a group belongs).
-- Contracts (packages/contracts/src)
--   Phone: phone.ts, the normal form of phone numbers; a regular expression is the function that says
--   what it matches.
-- TableQuery (packages/server/src/table-query.ts)
--   Filters: normalizeTableFilters and parseSorts. ScalarValue: scalarValue, relativeDateRange.
--   Context: what the compilers share. Prisma, Sql: compileCondition, compileSqlCondition; their Query:
--   buildTablePrismaQuery, buildTableSqlQuery. Memory: matchesMemoryCondition; its Rows:
--   filterAndSortTableRows (Matching: what a filter selects, Ranking: what sorts mean). Samples, Tests, RowTests: concrete inputs.
-- Common: shared tests, lists, integers, results, white space, texts, JSON, and
-- tables as lists of rows.
--
-- Conventions. A function keeps its name in snake case. A table is a list of rows, a conditional
-- UPDATE gives the new rows and its row count, a thrown error is `err`. Each statement runs on the
-- committed table: row locks and isolation are not modelled, interleavings are sequences of
-- statements. Times are milliseconds since 1970, a JSON payload its text. Clocks, processors, hooks,
-- queues, fresh ids and what other transactions commit are parameters; so are JSON.parse, the calendar
-- of Shanghai and the comparison of texts. A number of a table query is its rank among the numbers.
--
-- Bounds. A scan takes 200 requests for each schema. The climb to the root of the storage places
-- stops after 64 places as in the source, no fuel is added. The search for the parents of menu groups
-- has one call more as fuel than there are groups, which is enough since it visits no group twice; the
-- search for the first item below a group has as much, since the key of a child extends its parent's.
-- Every other loop is over a list or a tree.
--
-- Not modelled: controllers, DTOs, React components and generated clients (glue), Prisma, BullMQ
-- and Redis (not in the repository), file storage, deployment. Histories of the tasks leave out the
-- recovery executor (apps/recovery-executor/src/recovery-executor.service.ts), whose stageCancelTasks
-- cancels open tasks after a restore by an UPDATE of its own and keeps their lease columns.
pub mod Common
pub mod Approval
pub mod Contracts
pub mod Inventory
pub mod Menu
pub mod Overtime
pub mod TableQuery
pub mod Tasks
