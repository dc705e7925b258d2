-- ===== src/Jobs/Monitor.antt =====
-- One round of the loop of `_monitor_job` of sync/jobs.py. What the executors report is an argument.
use euvieouvi.Base.{
  ℕ, ◌+◌, ◌*◌, ◌/◌, String, Bool, true, false, not, ◌&&◌, ◌||◌, Option, none, some, List, [], ◌∷◌,
  if◌then◌else◌, is_some, some_or, ◌==◌, update_where, min, max,
}
use euvieouvi.Jobs.Row.{
  JobRun, SyncStatus, running, succeeded, failed, interrupted, is_active, Summary, reported,
  cancelled_preserved, owned_by,
}
use euvieouvi.Jobs.Lease.{release_lease, renew_lease}
use euvieouvi.Jobs.Execute.{ConnectorType, has_id, get_run}

-- A row of `sync_run_libraries`, with the number of references that its library has.
pub record LibraryProgress : Type 0 where
  pub items_scanned : ℕ
  pub items_total : Option ℕ
  pub existing : ℕ

-- The columns of `sync_runs` that are read here, with the connector type of the run's source.
pub record SyncRun : Type 0 where
  pub id : ℕ
  pub connector_type : ConnectorType
  pub status : SyncStatus
  pub created_at : ℕ
  pub finished_at : Option ℕ
  pub heartbeat_at : Option ℕ
  pub items_read : ℕ
  pub items_inserted : ℕ
  pub items_updated : ℕ
  pub items_failed : ℕ
  pub summary : Option String
  pub details : List LibraryProgress

-- `snapshot` of a background executor.
pub record Snapshot : Type 0 where
  pub active : Bool
  pub processed : ℕ
  pub updated : ℕ
  pub failed : ℕ
  pub percent : ℕ
  pub cancelled : Bool
  pub summary : String

pub record Report : Type 0 where
  pub active : Bool
  pub status : SyncStatus
  pub percent : ℕ
  pub processed : ℕ
  pub updated : ℕ
  pub failed : ℕ
  pub summary : Summary

-- `detail.items_total or existing_counts.get(...)`: a zero counts as missing.
abbrev pub expected_total : LibraryProgress → ℕ
expected_total d = elim d.items_total [
  | none ↦ d.existing
  | some n ↦ if n == 0 then d.existing else n
]

unfoldable pub sum_scanned : List LibraryProgress → ℕ
sum_scanned [] = 0
sum_scanned (d ∷ ds) = min d.items_scanned (expected_total d) + sum_scanned ds

unfoldable pub sum_total : List LibraryProgress → ℕ
sum_total [] = 0
sum_total (d ∷ ds) = expected_total d + sum_total ds

unfoldable pub sync_percent : Bool → List LibraryProgress → ℕ
unfolding sum_scanned sum_total
sync_percent active details =
    if not active
    then 100
    else if sum_total details == 0
    then 1
    else max 1 (min 99 (sum_scanned details * 100 / sum_total details))

-- `SyncRun` rows whose id is the reference; `none` when it disappeared.
unfoldable pub sync_report : Option SyncRun → Report
unfolding sync_percent
sync_report none = record {
  active = false;
  status = failed;
  percent = 100;
  processed = 0;
  updated = 0;
  failed = 1;
  summary = reported "Sincronização associada desapareceu.";
}
sync_report (some s) = record {
  active = is_active s.status;
  status = if is_active s.status then running else s.status;
  percent = sync_percent (is_active s.status) s.details;
  processed = s.items_read;
  updated = s.items_inserted + s.items_updated;
  failed = s.items_failed;
  summary = reported (some_or s.summary "Sincronização em andamento.");
}

unfoldable pub snapshot_report : Snapshot → Report
snapshot_report s = record {
  active = s.active;
  status =
      if s.active
      then running
      else if s.cancelled
      then interrupted
      else if s.failed == 0
      then succeeded
      else failed;
  percent = s.percent;
  processed = s.processed;
  updated = s.updated;
  failed = s.failed;
  summary = reported s.summary;
}

-- The override for a cancelled run, and the writes of the round.
unfoldable pub monitored : String → ℕ → Report → JobRun → JobRun
monitored worker_id now report r =
    let stopped = not report.active && is_some r.cancel_requested_at in
    let written : JobRun = record (renew_lease worker_id now r) {
      status = if stopped then interrupted else report.status;
      progress_percent = report.percent;
      processed = report.processed;
      updated = report.updated;
      failed = report.failed;
      summary = if stopped then cancelled_preserved else report.summary;
    } in
    if report.active
    then written
    else record (release_lease written) { finished_at = some now; progress_percent = 100 }

pub record Round : Type 0 where
  pub rows : List JobRun
  pub finished : Bool  -- the loop returns
  pub forward_cancellation : Bool
  pub forwarded : Bool  -- `cancellation_forwarded` for the next round

unfoldable pub monitor_round : ℕ → String → ℕ → Bool → Report → List JobRun → Round
monitor_round run_id worker_id now forwarded report rows = elim (get_run run_id rows) [
  | none ↦ record {
    rows = rows;
    finished = true;
    forward_cancellation = false;
    forwarded = forwarded;
  }
  | some run ↦
      if not (owned_by worker_id run)
      then record {
        rows = rows;
        finished = true;
        forward_cancellation = false;
        forwarded = forwarded;
      }
      else record {
        rows = update_where (has_id run_id) (monitored worker_id now report) rows;
        finished = not report.active;
        forward_cancellation = is_some run.cancel_requested_at && not forwarded;
        forwarded = forwarded || is_some run.cancel_requested_at;
      }
]
