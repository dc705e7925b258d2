-- ===== src/Jobs/Execute.antt =====
-- The start of `execute_claimed_job`, `_dispatch_job`, `request_job_cancellation` and
-- `_cancel_reference` of sync/jobs.py.
use euvieouvi.Base.{
  ℕ, String, Bool, true, false, not, ◌&&◌, Option, none, some, List, str_eq, if◌then◌else◌, is_some,
  ◌==◌, find_first, update_where,
}
use euvieouvi.Jobs.Row.{
  JobRun, SyncTrigger, Reference, sync, executor, interrupted, is_queued, is_running, is_active,
  owned_by, started_by_worker, cancelled_before_start, cancelled_while_waiting,
  cancellation_requested,
}
use euvieouvi.Jobs.Lease.{release_lease}

-- `db.session.get(JobRun, run_id)`
abbrev pub has_id : ℕ → JobRun → Bool
has_id run_id r = r.id == run_id

abbrev pub get_run : ℕ → List JobRun → Option JobRun
get_run run_id rows = find_first (has_id run_id) rows

pub data ConnectorType : Type 0 where
  plex jellyfin : ConnectorType

-- Who carries a job out.
pub data Target : Type 0 where
  source_sync : ConnectorType → Target
  metadata images async_tasks maintenance reconcile : Target
  watch_sync : ConnectorType → Target

-- The branches of `_dispatch_job`.
unfoldable pub dispatch_target : String → Target
dispatch_target job_id =
    if str_eq job_id "sync_plex"
    then source_sync plex
    else if str_eq job_id "sync_jellyfin"
    then source_sync jellyfin
    else if str_eq job_id "metadata"
    then metadata
    else if str_eq job_id "catalog_images"
    then images
    else if str_eq job_id "async_tasks"
    then async_tasks
    else if str_eq job_id "maintenance"
    then maintenance
    else if str_eq job_id "catalog_reconcile"
    then reconcile
    else if str_eq job_id "watched_plex_to_jellyfin"
    then watch_sync plex
    else watch_sync jellyfin

-- The answers of the executors: the id of the queued run of a source, if the source exists and takes
-- it, and whether a background executor took the work.
pub record Executors : Type 0 where
  pub submit_sync : ConnectorType → SyncTrigger → Option ℕ
  pub submit : Target → Bool

unfoldable pub dispatch_job : Executors → String → SyncTrigger → Option Reference
unfolding dispatch_target
dispatch_job executors job_id trigger = answer (dispatch_target job_id)
  where
    taken : Target → String → Option Reference
    taken target name = if executors.submit target then some (executor name) else none

    answer : Target → Option Reference
    answer (source_sync c) = elim (executors.submit_sync c trigger) [
      | none ↦ none
      | some run_id ↦ some (sync run_id)
    ]
    answer metadata = taken metadata "metadata"
    answer images = taken images "images"
    answer async_tasks = taken async_tasks "async_tasks"
    answer maintenance = some (executor "maintenance")
    answer reconcile = some (executor "reconcile")
    answer (watch_sync c) = taken (watch_sync c) "watch"

pub data Start : Type 0 where
  not_claimed cancelled : Start
  dispatching : String → SyncTrigger → Start

-- `run.status is RUNNING and run.lease_owner == worker_id`
abbrev pub is_claimed : String → JobRun → Bool
is_claimed worker_id r = is_running r.status && owned_by worker_id r

unfoldable pub cancel_before_start : ℕ → JobRun → JobRun
cancel_before_start now r = record (release_lease r) {
  status = interrupted;
  finished_at = some now;
  progress_percent = 100;
  summary = cancelled_before_start;
}

-- Up to the dispatch.
unfoldable pub start_claimed_job : ℕ → String → ℕ → List JobRun → Start × List JobRun
start_claimed_job run_id worker_id now rows = elim (get_run run_id rows) [
  | none ↦ (not_claimed, rows)
  | some run ↦
      if not (is_claimed worker_id run)
      then (not_claimed, rows)
      else if is_some run.cancel_requested_at
      then (cancelled, update_where (has_id run_id) (cancel_before_start now) rows)
      else (dispatching run.job_id run.trigger, rows)
]

unfoldable pub set_reference : Reference → JobRun → JobRun
set_reference reference r = record r {
  execution_reference = some reference;
  summary = started_by_worker;
}

-- After it, on the table as it is then. `none` is one of the two RuntimeErrors: the executor did not
-- take the job, or the lease was lost meanwhile.
unfoldable pub record_dispatch :
    ℕ → String → Option Reference → List JobRun → Option Reference × List JobRun
record_dispatch run_id worker_id none rows = (none, rows)
record_dispatch run_id worker_id (some reference) rows = elim (get_run run_id rows) [
  | none ↦ (none, rows)
  | some run ↦
      if is_claimed worker_id run
      then (some reference, update_where (has_id run_id) (set_reference reference) rows)
      else (none, rows)
]

unfoldable pub cancel_row : ℕ → JobRun → JobRun
cancel_row now r =
    if is_queued r.status
    then record (release_lease r) {
      cancel_requested_at = some now;
      status = interrupted;
      finished_at = some now;
      progress_percent = 100;
      summary = cancelled_while_waiting;
    }
    else record r { cancel_requested_at = some now; summary = cancellation_requested }

-- Whether the row was active, and the reference to which the request is forwarded.
unfoldable pub request_job_cancellation :
    ℕ → ℕ → List JobRun → (Bool × Option Reference) × List JobRun
request_job_cancellation run_id now rows = elim (get_run run_id rows) [
  | none ↦ ((false, none), rows)
  | some run ↦
      if is_active run.status
      then ((true, run.execution_reference), update_where (has_id run_id) (cancel_row now) rows)
      else ((false, none), rows)
]
