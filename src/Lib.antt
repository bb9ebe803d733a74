-- ===== src/Lib.antt =====
-- Verification of the Actor runtime: a local server that builds and runs Actors in containers and
-- answers the platform's API. The model is of its services, in src/services and src/storage.
--
-- Parts and files:
-- - Jobs: the statuses of builds and runs, the gate of every status write (src/services/job-status.ts:
--   isTerminalJobStatus, ALLOWED_NEXT, transitionJobStatus) and the registry of records that the gate
--   works on (src/storage/registry.ts: get, set, update, delete, list, onChange).
-- - Entities: the records of src/storage/entities.ts that the other parts use.
-- - Runs: runs.ts, migrations.ts and the marks of standby-finish.ts. World is their shared state: the
--   registry of runs, the maps of open abort windows, restarts and migration stops, and the list of
--   what was asked of the driver and of the log and event channels, newest first. Abort is abortRun,
--   Restart is restartAfterError, migrateRun and rebootRun, Background is the part of runInBackground
--   around the container, Resurrect is resurrectRun, Queries is the reads, Message is
--   setRunStatusMessage, Timeout is remainingTimeoutSecs and runTimeoutAt, Reconcile is
--   reconcileOrphanedJobs. Runs.Ended.Steps joins the handlers in one step relation.
-- - Charging, Usage, Pricing: charging.ts, run-usage.ts and pricing.ts. Double is what they use of
--   JavaScript's fractional numbers: an interface, since those are the language's.
-- - ActorMemory: resolveRunMemory of actor-memory.ts.
-- - RequestQueue: the head buffer (src/storage/request-queue/buffer.ts) and request-queues.ts, over
--   the queue frontend of a third-party package, which is an interface (Frontend).
-- - ResourceReference and Storages: resource-reference.ts and storages.ts.
-- - Datasets: dataset-projection.ts.
-- - Actors: actors.ts and the sealing of secrets in secrets.ts. updateActor is update_actor; the key
--   pair it may generate and the encryption are arguments.
-- - Builds: builds.ts. The look-ups are in Builds, the writes of startBuild, runBuildInBackground,
--   failBuild and abortBuild in Builds.Background, cut where the source waits; Builds.Tag is about the
--   tag that a build records.
-- - Webhooks: webhooks.ts and webhook-dispatches.ts. Webhooks.Records is the store of webhooks,
--   Webhooks.Events what a status write raises (jobEventTypes), Webhooks.Dispatches the dispatcher
--   with its records and timers (createDispatches, insertDispatch, startWebhookDispatcher),
--   Webhooks.Delivery one delivery (deliver) over the answer of the endpoint, Webhooks.Attempts the
--   attempts of a dispatch and their retries (attemptDispatch, finishAttempt, scheduleAttempt).
-- - Standby: standby.ts, standby-finish.ts and standby-config.ts. Standby.Pool is the pool of one
--   address (acquireStandbyRun, addRun, armIdleTimer, retire, pruneEndedRuns): the entry objects that
--   the source compares by identity have tickets, drawn from a counter. Standby.Finish is finishRun on
--   the runs' World, Standby.Config is mergeStandbyUpdate and its variants for a task.
-- - Schedules: schedules.ts, schedule-cron.ts (Schedules.Cron: computeNextRunAt over the interface
--   CronParser) and scheduler.ts (Schedules.Timers: arm, fire and its write, startScheduler).
-- - Base: lists over the native numbers, dictionaries in insertion order, tests, JSON values (Json)
--   and results with an error (Results). Tests: concrete records and the theorems applied to them.
--
-- How the parts meet: a handler of the program runs without interruption from one wait to the next,
-- and the registry serialises the writes of one record, so such a stretch is one function from the
-- state to the state. Where a handler waits, what the others do meanwhile is an argument: a list of
-- writes (Runs.Writes) or a function of the state. Times and generated ids are arguments too.
-- Timestamps are milliseconds as natural numbers. A subtraction that JavaScript clamps at 0 is the
-- truncated one.
--
-- Bounds and fuel: the drain of the head buffer has the source's cap of 1000 rounds; its top-up makes the
-- rounds that its argument allows, and the source's ends with the queue, the limit or the cap. Following a
-- list's cursor runs on one more than the number of ids. The search for a next run has the source's eleven
-- rounds. All else is structural recursion.
--
-- Coarser than the source: what follows the exit of a container, and what precedes a start that fails, is
-- one step over its short waits for the log, the event channel and the registry. The creation of the
-- dispatches of an event is one step too. No event of a pricing is named like what every JavaScript object
-- has, such as constructor, for which the test with `in` holds as well. The cron parser may throw for an
-- expression that it accepted; what is found is said for those that it has times for.
--
-- The delay of a retry is a fraction of a millisecond in the source, which its date cuts off; the
-- model draws the random part as a number of small units and cuts off in the same place.
--
-- Not modelled: the container driver, the HTTP routes and the console (input and output); the creation
-- and validation of schedules and the runs that they start; tasks; the sources and schemas of a build
-- and the start of a run before its first status write; the validation of webhook bodies and the
-- rendering of their templates; the wait for the server of a standby run; the validation of raw
-- pricing. Failures of the storage below the registry are not modelled.
pub mod Base
pub mod Jobs
pub mod Entities
pub mod Runs
pub mod Double
pub mod Pricing
pub mod Usage
pub mod Charging
pub mod RequestQueue
pub mod ResourceReference
pub mod Storages
pub mod Datasets
pub mod Builds
pub mod Webhooks
pub mod Schedules
pub mod Standby
pub mod Actors
pub mod Tests
pub mod ActorMemory
