-- ===== src/Jobs/Lease.antt =====
-- Leases: `renew_job_lease` and `recover_job_runs` of sync/job_worker.py, `_renew_lease` and
-- `_release_lease` of sync/jobs.py.
use euvieouvi.Base.{
  ℕ, ◌+◌, String, Bool, true, not, ◌&&◌, ◌||◌, none, some, List, is_some, if◌then◌else◌, ltb, leb,
  ◌==◌, update_where, count, max,
}
use euvieouvi.Jobs.Row.{
  JobRun, queued, failed, interrupted, is_queued, is_running, seconds, owned_by,
  recovered_after_restart, cancelled_on_recovery, exhausted_on_recovery,
}
use euvieouvi.Jobs.Claim.{lease_seconds}

-- `_release_lease`
abbrev pub release_lease : JobRun → JobRun
release_lease run = record run { lease_owner = none; lease_expires_at = none }

-- `_renew_lease`; it writes the lease length out.
abbrev pub renew_lease : String → ℕ → JobRun → JobRun
renew_lease worker_id now run = record run {
  heartbeat_at = some now;
  lease_owner = some worker_id;
  lease_expires_at = some (now + seconds 45);
}

abbrev pub holds_lease : ℕ → String → JobRun → Bool
holds_lease run_id worker_id r = (r.id == run_id) && is_running r.status && owned_by worker_id r

unfoldable pub renewed : ℕ → JobRun → JobRun
renewed now r = record r {
  heartbeat_at = some now;
  lease_expires_at = some (now + seconds lease_seconds);
}

unfoldable pub renew_job_lease : ℕ → String → ℕ → List JobRun → Bool × List JobRun
renew_job_lease run_id worker_id now rows = (
  not (0 == count (holds_lease run_id worker_id) rows),
  update_where (holds_lease run_id worker_id) (renewed now) rows,
)

-- `lease_expires_at IS NULL OR lease_expires_at < recovered_at`
abbrev pub lease_is_over : ℕ → JobRun → Bool
lease_is_over now run = elim run.lease_expires_at [ none ↦ true | some t ↦ ltb t now ]

-- The rows of the two SELECTs: running ones without a valid lease, or all of them when forced, and
-- queued ones that still name an owner.
unfoldable pub needs_recovery : Bool → ℕ → JobRun → Bool
needs_recovery force now run =
    (is_running run.status && (force || lease_is_over now run))
    || (is_queued run.status && is_some run.lease_owner)

recover_status : ℕ → JobRun → JobRun
recover_status now run =
    if is_some run.cancel_requested_at
    then record run {
      status = interrupted;
      finished_at = some now;
      progress_percent = 100;
      summary = cancelled_on_recovery;
    }
    else if leb run.max_attempts run.attempt_count
    then record run {
      status = failed;
      finished_at = some now;
      progress_percent = 100;
      failed = max 1 run.failed;
      summary = exhausted_on_recovery;
    }
    else record run {
      status = queued;
      available_at = some now;
      started_at = none;
      finished_at = none;
      execution_reference = none;
      summary = recovered_after_restart;
    }

-- The body of the loop of `recover_job_runs`.
unfoldable pub recover_row : ℕ → JobRun → JobRun
unfolding recover_status
recover_row now run = record (release_lease (recover_status now run)) { heartbeat_at = some now }

unfoldable pub recover_job_runs : Bool → ℕ → List JobRun → ℕ × List JobRun
recover_job_runs force now rows = (
  count (needs_recovery force now) rows,
  update_where (needs_recovery force now) (recover_row now) rows,
)
