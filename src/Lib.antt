-- ===== src/Lib.antt =====
-- Verification of euvieouvi, a server that mirrors the catalogues and the watch states of media
-- servers. The library models the parts that keep the work going, the durable queue of jobs, the queue
-- of asynchronous tasks and the synchronization of a source, and what becomes of the data: the history
-- of playback, its propagation between two servers, and the grouping of the catalogue. A job of the first
-- queue starts a synchronization or a drain of the second, and follows it by what it reports; a
-- synchronization stores events, which change watch states and enqueue tasks.
--
-- Base: Boolean tests on numbers, and tables: lists with the filters, counts, orders and updates of the
-- SQL statements. A table is a list of rows in the order of their insertion, a transaction a function
-- from tables to tables. Times are numbers of microseconds.
--
-- Jobs: src/euvieouvi/sync/job_worker.py and src/euvieouvi/sync/jobs.py on the table job_runs of
-- src/euvieouvi/database/models.py. Row has the rows, the jobs, their priorities and dependencies;
-- Submit submit_job; Claim claim_next_job; Lease renew_job_lease and recover_job_runs; Retry
-- fail_or_retry_job; Execute the start of execute_claimed_job, _dispatch_job and
-- request_job_cancellation; Monitor a round of _monitor_job; Reconcile reconcile_completed_sync_job and
-- reconcile_interrupted_job_runs. The answers of the executors are arguments. Invariant, Preserve and
-- Steps have the invariant of the table and the relation of the transactions; Order, Fencing, Backoff
-- and Outcome what single operations do.
--
-- Tasks: src/euvieouvi/sync/async_tasks.py on the table async_tasks. Row has the rows; Queue
-- enqueue_watch_update, _claim_due, the writes of _run_one, retry_all and recover_async_tasks; Run
-- _is_superseded, _run_one and the loop of _execute. Applying an update to a source is an argument. View
-- is what the queue promises its clients: the newest payload of each key that is still to be applied.
-- The loop has fuel for its rounds; it needs one more than the tasks have attempts left, up to twelve for
-- each that is not blocked, which Attempts counts. The clock, read at each claim and at each end, and what
-- others commit meanwhile are arguments.
--
-- Sync: src/euvieouvi/sync/orchestrator.py with the data of src/euvieouvi/connectors/dtos.py. Media has
-- what a connector delivers; Rows the tables; Catalog the services of src/euvieouvi/sync/persistence.py
-- and src/euvieouvi/sync/catalog_reconcile.py, which are arguments; Persist
-- _persist_media_with_repair; Checkpoint the checkpoints; Page the transaction of a page; Scan the loops
-- over the pages and the sweep; Library _sync_library; Run _acquire, run_queued, _execute, _finish_run,
-- finish_success and finish_failure. Accounting, Ending, Reading, Sweep, Closing and Single are about the
-- counters, the ends of the loops, what they read, missing references, the end of a run and the table of
-- runs; Resume and Restart about a cancelled scan, continued by the same loop and by a new run. The
-- connector, the clock, the cancellation token and the json module are arguments, and the clock and the
-- token are read once in each round. The loops have fuel for their rounds; it is enough when it is above a bound
-- of the positions that the pages lead to.
--
-- Scheduler: src/euvieouvi/sync/scheduler.py: _run_jobs_if_due, which submits each job once a day. How a
-- text is read as a time of the day is an argument.
--
-- Breaker: the CircuitBreakerRegistry of src/euvieouvi/observability.py for one connector. Metric has the
-- steps, Steps their interleavings, and Opening the opening and closing of the circuit.
--
-- History: src/euvieouvi/sync/persistence.py on the tables watch_events and watch_states. Row has the
-- events and their lookups; State _apply_event_to_watch_state and _sync_watch_state; Event
-- persist_event; Containers rebuild_container_watch_states, _set_derived_watch_state and
-- _aggregate_completion. Refresh and Repeat are about an event that comes twice, Growth about what is
-- never taken back, Derived, Rebuilt, Grouped, Collected and Shows about the states of containers. The
-- hashes of events and of payloads and the clock of the columns updated_at are arguments; an UPDATE is
-- made, and moves updated_at, only where a column changes its value.
--
-- Metadata: _canonical_source_may_update, _sync_image and _sync_identifier_values of
-- src/euvieouvi/sync/persistence.py. Row has the items, sources and images and the first two; Identifiers
-- the third, on the table media_identifiers. Kept and Images are about a source that may not change an
-- item, Replaced and Delivered about one that may. That a set of identifiers was synchronized before in
-- the same session is an argument.
--
-- Watch: src/euvieouvi/sync/watch_sync.py. Rows has the states, references and candidates; Decide and
-- Prepare the part of _prepare from the rows on; Record _record_successes and _invalidate_reference;
-- Round and Run the loop of run, _update_progress, _finish and the choice of a full scan in
-- _incremental_scope. View and Growth are about the table of states, Choice about what may be
-- propagated, Persisted and Converge about the next decision after a success, Saved, Outcome and
-- Completion about a whole run. The groups of items, the answers of the connectors, the clock and the
-- cancellation are arguments; the round of each candidate has its own.
--
-- Union: _UnionFind of src/euvieouvi/sync/catalog_projection.py, on parent maps. Forest has the walk with
-- path halving, Join find and join, Classes what the joins bring together. The walks have fuel; it is
-- enough when it is above the number of joins.
--
-- Projection: the grouping of rebuild_catalog_projection in the same file. Item has the rows that it reads;
-- Safe _safe_group and safe_identity_group; Groups the groups by identifier and title, their union and
-- the canonical item. Compatible, Partition and Canonical are about the members of a group, where each
-- item ends up, and the choice of the canonical item. The normalization of titles is an argument.
--
-- Not modelled: threads, events and locks of the process, log files and notices, maintenance and the
-- rotation of old rows, the matching of single items with the catalogue and their reconciliation,
-- genres, the daily backup, the samples and alerts of the telemetry, the
-- statistics and the incremental refresh of the projected catalogue, the enrichment, the clients of the
-- media servers, the HTTP interfaces, and configuration: input and output, glue, parts that the modelled
-- ones take as arguments, or database queries.
pub mod Base
pub mod Breaker
pub mod Jobs
pub mod Scheduler
pub mod Sync
pub mod Tasks
pub mod Union
pub mod Projection
pub mod Watch
pub mod History
pub mod Metadata
