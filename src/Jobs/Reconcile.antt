-- ===== src/Jobs/Reconcile.antt =====
-- `_copy_sync_result`, `reconcile_completed_sync_job` and `reconcile_interrupted_job_runs` of
-- sync/jobs.py: what a restart does to the rows whose synchronization has ended, and to the others.
use euvieouvi.Base.{
  ℕ, ◌+◌, String, Bool, true, false, not, ◌&&◌, Option, none, some, List, str_eq, if◌then◌else◌,
  some_or, leb, ltb, order_by, ◌==◌, find_first, update_where,
}
use euvieouvi.Jobs.Row.{JobRun, sync, is_running, is_active, reported, no_summary}
use euvieouvi.Jobs.Lease.{release_lease, recover_job_runs}
use euvieouvi.Jobs.Execute.{ConnectorType, plex, jellyfin}
use euvieouvi.Jobs.Monitor.{SyncRun}

-- `_copy_sync_result`
unfoldable pub copy_sync_result : ℕ → SyncRun → JobRun → JobRun
copy_sync_result now completed r =
    let finished_at = some_or completed.finished_at now in
    record (release_lease r) {
      status = completed.status;
      finished_at = some finished_at;
      progress_percent = 100;
      processed = completed.items_read;
      updated = completed.items_inserted + completed.items_updated;
      failed = completed.items_failed;
      summary = elim completed.summary [ none ↦ no_summary | some t ↦ reported t ];
      heartbeat_at = some (some_or completed.heartbeat_at finished_at);
    }

sync_connector : String → Option ConnectorType
sync_connector job_id =
    if str_eq job_id "sync_plex"
    then some plex
    else if str_eq job_id "sync_jellyfin"
    then some jellyfin
    else none

is_connector : ConnectorType → ConnectorType → Bool
is_connector plex plex = true
is_connector jellyfin jellyfin = true
is_connector _ _ = false

-- `ORDER BY created_at DESC, id DESC`
newer : SyncRun → SyncRun → Bool
newer a b =
    if ltb b.created_at a.created_at
    then true
    else if ltb a.created_at b.created_at
    then false
    else leb b.id a.id

-- A run of the connector that was created since a time and has ended.
is_finished_since : ConnectorType → ℕ → SyncRun → Bool
unfolding is_connector
is_finished_since c since s =
    is_connector s.connector_type c && leb since s.created_at && not (is_active s.status)

unfoldable pub newest_finished : ConnectorType → ℕ → List SyncRun → Option SyncRun
unfolding newer is_finished_since
newest_finished c since runs = find_first (is_finished_since c since) (order_by newer runs)

-- `db.session.get(SyncRun, id)`
abbrev get_sync_run : ℕ → List SyncRun → Option SyncRun
get_sync_run id runs = find_first (λ s. s.id == id) runs

-- Rows older than the durable queue have no reference and no attempt.
legacy_sync : List SyncRun → JobRun → Option SyncRun
unfolding sync_connector
legacy_sync runs run =
    if is_running run.status && run.attempt_count == 0
    then elim (sync_connector run.job_id) [
      | none ↦ none
      | some c ↦ newest_finished c run.created_at runs
    ]
    else none

pub referenced_sync : List SyncRun → JobRun → Option SyncRun
unfolding legacy_sync
referenced_sync runs run = elim run.execution_reference [
  | some (sync id) ↦ get_sync_run id runs
  | _ ↦ legacy_sync runs run
]

-- The row closed by its finished synchronization; `none` is False, and the row stays as it is.
unfoldable pub reconcile_completed_sync_job : List SyncRun → ℕ → JobRun → Option JobRun
reconcile_completed_sync_job runs now run =
    if not (is_active run.status) then none else elim (referenced_sync runs run) [
      | none ↦ none
      | some s ↦ if is_active s.status then none else some (copy_sync_result now s run)
    ]

unfoldable pub close_completed : List SyncRun → ℕ → JobRun → JobRun
close_completed runs now r = some_or (reconcile_completed_sync_job runs now r) r

-- `reconcile_interrupted_job_runs` on the table of jobs: finished synchronizations close their rows,
-- then every row that is still active is recovered.
unfoldable pub reconcile_interrupted_job_runs : List SyncRun → ℕ → List JobRun → ℕ × List JobRun
reconcile_interrupted_job_runs runs now rows =
    recover_job_runs true now
      (update_where (λ r. is_active r.status) (close_completed runs now) rows)
