-- ===== src/Jobs/Retry.antt =====
-- `fail_or_retry_job` of sync/job_worker.py. The error is its text, as `concise_error` gives it.
use euvieouvi.Base.{
  ℕ, ◌+◌, ◌-◌, ◌*◌, ◌^◌, String, Bool, ◌&&◌, none, some, List, is_some, if◌then◌else◌, ltb, ◌==◌,
  update_where, min, max,
}
use euvieouvi.Jobs.Row.{
  JobRun, queued, failed, interrupted, seconds, owned_by, cancelled_preserved, retrying, gave_up,
}
use euvieouvi.Jobs.Lease.{release_lease}

-- The backoff in seconds; `-` stops at 0, as the source's `max(0, ...)` does.
unfoldable pub retry_delay : ℕ → ℕ
retry_delay attempt_count = min 300 (5 * 2 ^ (attempt_count - 1))

fail_status : String → ℕ → JobRun → JobRun
fail_status detail now run =
    if is_some run.cancel_requested_at
    then record run {
      status = interrupted;
      finished_at = some now;
      progress_percent = 100;
      summary = cancelled_preserved;
    }
    else if ltb run.attempt_count run.max_attempts
    then record run {
      status = queued;
      available_at = some (now + seconds (retry_delay run.attempt_count));
      started_at = none;
      finished_at = none;
      execution_reference = none;
      summary = retrying run.attempt_count detail (retry_delay run.attempt_count);
    }
    else record run {
      status = failed;
      finished_at = some now;
      progress_percent = 100;
      failed = max 1 run.failed;
      summary = gave_up run.attempt_count detail;
    }

unfoldable pub fail_row : String → ℕ → JobRun → JobRun
unfolding fail_status
fail_row detail now run = record (release_lease (fail_status detail now run)) {
  heartbeat_at = some now;
}

-- `run.lease_owner != worker_id` returns before any write; the status is not looked at.
abbrev pub is_own : ℕ → String → JobRun → Bool
is_own run_id worker_id r = (r.id == run_id) && owned_by worker_id r

unfoldable pub fail_or_retry_job : ℕ → String → String → ℕ → List JobRun → List JobRun
fail_or_retry_job run_id worker_id detail now rows =
    update_where (is_own run_id worker_id) (fail_row detail now) rows
