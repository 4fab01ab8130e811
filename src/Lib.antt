-- ===== src/Lib.antt =====
-- workflowd schedules agent work on pull requests: webhooks and snapshots of GitHub move the tracked
-- state of a pull request, and a durable workflow kernel keeps instances, events, waits, deliveries
-- and jobs in SQLite tables. This library models the decision core and the stores.
--
-- - Domain/Transition.antt: src/domain/pull-request-transition.ts, the whole of
--   `decidePullRequestTransition`. Domain/Transition/Requests and /Generation hold what is stated
--   of it. `toLowerCase` is the parameter `lower`; `updatedAt` is a list of code units, since the
--   code compares the two strings by `<`.
-- - Domain/Evidence.antt: src/domain/head-evidence.ts, `gateReviewWithHeadEvidence` and
--   `stripHeadEvidenceFindings`, over the types of src/domain/review-result.ts. A text is a list of
--   code units. `String(n)` is the parameter `show`; a percentage is its printed text and whether it
--   exceeds one. Domain/Policy.antt: src/domain/transaction-policy.ts.
-- - Store/Lease.antt: src/store/lease.ts, `SqlLeaseQueue`, over a row whose further columns are a
--   parameter, as are the row decoder, the hook before a claim and what a candidate query asks in
--   addition. Store/Publications.antt: src/store/publications.ts with src/store/currentness.ts, and
--   the queues of commands and reconciliations.
-- - SessionAccess.antt: src/session-access.ts. SessionAccess/Shell is a reader of POSIX quoting,
--   written for the statement about the attach command.
-- - Remote/Runner.antt: src/remote/runner-store.ts, the store of a runner host, over the types of
--   src/remote/contract.ts. Batch is `recordBatch`, Execution the operations on recorded commands,
--   which fail on the foreign key of the outbox where the inbox does not have the command.
--   `executeClaudeResume` is one step of three parts, since the claim is the only write before the
--   run: what the run, or its recovery, comes to is an argument.
-- - Store/PullRequests.antt: src/store/pull-requests.ts, what a transition of
--   src/domain/pull-request-transition.ts does to the tables of Store/Work.antt, with the statements of
--   src/store/shared.ts that supersede work in Store/Supersede.antt: Tracked is what it reads first,
--   Reconcile and Write are what it writes. Machine is the state machine that
--   the store implements, Placed says of a table that its work lies in the current generation, and
--   History is any transitions in a row.
--   Store/Ingest.antt: src/store/deliveries.ts, and `applyReconciliationSnapshot` of
--   src/store/reconciliations.ts. A defect of the source is `none`, since it rolls back.
-- - Ci.antt: src/ci/store.ts, the log of the states of watched commits and the verdict over their runs.
-- - Kernel/Db.antt: the kernel tables of src/store/migrations.ts as lists of rows in insertion
--   order. Kernel/Deliveries, /Instances, /Events, /Waits and /Consume: src/kernel/event-store.ts
--   (`createInstance`, `recordEvent`, `registerWait`, `consumeDelivery`, `readReadyDeliveries`).
--   Kernel/Handoff, /Jobs, /Claims and /Results: src/kernel/job-store.ts
--   (`enqueueFromDelivery`, `heartbeat`, `fail`, `retry`, the reads, `claimMatching` under
--   `claimNext` and `claimRemote`, `complete`). Kernel/History: any calls of these, in any order.
-- - Base.antt: lists, Boolean tests, rows and text.
--
-- How the state corresponds. A table is a list of rows; `UPDATE … WHERE` is `update`, `INSERT` is
-- an append after its guard, `ORDER BY` is `order_by` and a lookup by key is `find?`. Each operation
-- of a store is one transaction: in the kernel its result is an `Outcome`, which has no tables in the
-- error case, and `after` keeps the old ones then; in the other stores a failed transaction is `none`. Operations interleave as whole transactions, so a history is
-- a list of calls. Instants are milliseconds, and the ISO texts that the tables hold compare as they
-- do. A payload is its canonical JSON text; bounds are on bytes of UTF-8.
--
-- Parameters, since their code is a library's: the row decoders of the Effect schemas and
-- `json_extract` of SQLite (the records `Codec`), the digest and the JSON encoding, the token that `randomUUID` draws (`uuid`) and the
-- decoder's message for a row that does not decode (`message`). Nothing is supposed of them but what
-- a statement names.
--
-- Loops: the candidates of a job claim are read once and walked once, by structural recursion. The
-- `while (true)` of `SqlLeaseQueue.claim` runs on fuel: one more than the attempts that the rows have
-- left, of which every round uses one up.
--
-- Not modelled: the SQL driver, pragmas, and the indexes that only speed a query up; HTTP, sockets,
-- processes and files; schemas that only describe a wire format; and the further stores. Of the
-- tables only the columns that the modelled operations read or write are there.
pub mod Base
pub mod Ci
pub mod Domain
pub mod Kernel
pub mod Remote
pub mod SessionAccess
pub mod Store
