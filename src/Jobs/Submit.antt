-- ===== src/Jobs/Submit.antt =====
-- `submit_job` of sync/jobs.py and the partial unique index `uq_job_runs_active_job` of
-- database/models.py. The three reads of the table may see other states than the insertion: other
-- requests commit between them.
use euvieouvi.Base.{
  ℕ, suc, String, Bool, not, ◌&&◌, Option, none, some, List, [], ◌∷◌, ◌++◌, str_eq, if◌then◌else◌,
  ◌==◌, any, update_where, max,
}
use euvieouvi.Jobs.Row.{JobRun, SyncTrigger, queued, is_active, is_job, waiting_for_worker}

-- A queued or running row of the job.
unfoldable pub is_active_for : String → JobRun → Bool
is_active_for job_id r = str_eq r.job_id job_id && is_active r.status

unfoldable pub has_active : String → List JobRun → Bool
unfolding any is_active_for
has_active job_id rows = any (is_active_for job_id) rows

-- The id that SQLite gives to a new row: one more than the largest in the table.
unfoldable pub next_id : List JobRun → ℕ
next_id [] = 1
next_id (r ∷ rows) = max (suc r.id) (next_id rows)

unfoldable pub new_run : ℕ → String → SyncTrigger → ℕ → ℕ → JobRun
new_run id job_id trigger max_attempts now = record {
  id = id;
  job_id = job_id;
  trigger = trigger;
  status = queued;
  created_at = now;
  started_at = none;
  finished_at = none;
  available_at = some now;
  heartbeat_at = none;
  lease_expires_at = none;
  lease_owner = none;
  cancel_requested_at = none;
  attempt_count = 0;
  max_attempts = max_attempts;
  execution_reference = none;
  progress_percent = 0;
  processed = 0;
  updated = 0;
  failed = 0;
  summary = waiting_for_worker;
  log_filename = none;
}

-- `none` is the IntegrityError of the unique index.
unfoldable pub insert_run : String → SyncTrigger → ℕ → ℕ → List JobRun → Option (List JobRun)
unfolding has_active next_id new_run
insert_run job_id trigger max_attempts now rows =
    if has_active job_id rows
    then none
    else some (rows ++ new_run (next_id rows) job_id trigger max_attempts now ∷ [])

unfoldable pub set_log_filename : ℕ → JobRun → JobRun
set_log_filename id r = record r { log_filename = some (r.job_id, id) }

-- `created` is True, `already_active` False; the others are the exceptions.
pub data Submission : Type 0 where
  created already_active key_error integrity_error : Submission

unfoldable pub submit_job :
    String
    → SyncTrigger
    → ℕ
    → ℕ
    → (seen_before : List JobRun) (rows : List JobRun) (seen_after : List JobRun)
    → Submission × List JobRun
submit_job job_id trigger max_attempts now seen_before rows seen_after =
    if not (is_job job_id)
    then (key_error, rows)
    else if has_active job_id seen_before
    then (already_active, rows)
    else elim (insert_run job_id trigger max_attempts now rows) [
      | none ↦ ((if has_active job_id seen_after then already_active else integrity_error), rows)
      | some rows' ↦ (
        created,
        update_where (λ r. r.id == next_id rows) (set_log_filename (next_id rows)) rows',
      )
    ]
