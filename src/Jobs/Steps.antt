-- ===== src/Jobs/Steps.antt =====
-- The transactions of the queue as a step relation: every operation, at any time, by any worker, in
-- any order, with any answer of the executors.
use euvieouvi.Base.{ℕ, ◌<◌, String, Bool, Option, List, []}
use euvieouvi.Jobs.Row.{JobRun, SyncTrigger, Reference}
use euvieouvi.Jobs.Submit.{submit_job}
use euvieouvi.Jobs.Claim.{claim_next_job}
use euvieouvi.Jobs.Lease.{renew_job_lease, recover_job_runs}
use euvieouvi.Jobs.Retry.{fail_or_retry_job}
use euvieouvi.Jobs.Execute.{start_claimed_job, record_dispatch, request_job_cancellation}
use euvieouvi.Jobs.Monitor.{SyncRun, Report, monitor_round}
use euvieouvi.Jobs.Reconcile.{reconcile_interrupted_job_runs}
use euvieouvi.Jobs.Invariant.{IsConsistent, empty-IsConsistent}
use euvieouvi.Jobs.Preserve.Claim.{claim_next_job-IsConsistent}
use euvieouvi.Jobs.Preserve.Lease.{
  renew_job_lease-IsConsistent, recover_job_runs-IsConsistent, fail_or_retry_job-IsConsistent,
}
use euvieouvi.Jobs.Preserve.Submit.{submit_job-IsConsistent}
use euvieouvi.Jobs.Preserve.Execution.{
  IsReport, start_claimed_job-IsConsistent, record_dispatch-IsConsistent,
  monitor_round-IsConsistent, request_job_cancellation-IsConsistent,
  reconcile_interrupted_job_runs-IsConsistent,
}

pub data Step (rows : List JobRun) : List JobRun → Type 0 where
  submit :
      (job_id : String) (trigger : SyncTrigger) (max_attempts now : ℕ)
      (seen_before seen_after : List JobRun)
      → 0 < max_attempts
      → Step rows (submit_job job_id trigger max_attempts now seen_before rows seen_after).1
  claim : (worker_id : String) (now : ℕ) → Step rows (claim_next_job worker_id now rows).1
  renew :
      (run_id : ℕ) (worker_id : String) (now : ℕ)
      → Step rows (renew_job_lease run_id worker_id now rows).1
  recover : (force : Bool) (now : ℕ) → Step rows (recover_job_runs force now rows).1
  fail :
      (run_id : ℕ) (worker_id detail : String) (now : ℕ)
      → Step rows (fail_or_retry_job run_id worker_id detail now rows)
  start :
      (run_id : ℕ) (worker_id : String) (now : ℕ)
      → Step rows (start_claimed_job run_id worker_id now rows).1
  dispatch :
      (run_id : ℕ) (worker_id : String) (reference : Option Reference)
      → Step rows (record_dispatch run_id worker_id reference rows).1
  monitor :
      (run_id : ℕ) (worker_id : String) (now : ℕ) (forwarded : Bool) (report : Report)
      → IsReport report
      → Step rows (monitor_round run_id worker_id now forwarded report rows).rows
  cancel : (run_id now : ℕ) → Step rows (request_job_cancellation run_id now rows).1
  restart :
      (runs : List SyncRun) (now : ℕ) → Step rows (reconcile_interrupted_job_runs runs now rows).1

pub data Reach (rows : List JobRun) : List JobRun → Type 0 where
  here : Reach rows rows
  next : {middle last : List JobRun} → Reach rows middle → Step middle last → Reach rows last

pub Step-IsConsistent :
    {rows rows' : List JobRun} → Step rows rows' → IsConsistent rows → IsConsistent rows'
Step-IsConsistent {rows} (submit j t m n b a e) h = submit_job-IsConsistent j t m n b rows a e h
Step-IsConsistent {rows} (claim w n) h = claim_next_job-IsConsistent w n rows h
Step-IsConsistent {rows} (renew i w n) h = renew_job_lease-IsConsistent rows h i w n
Step-IsConsistent {rows} (recover f n) h = recover_job_runs-IsConsistent rows h f n
Step-IsConsistent {rows} (fail i w d n) h = fail_or_retry_job-IsConsistent rows h i w d n
Step-IsConsistent {rows} (start i w n) h = start_claimed_job-IsConsistent i w rows h n
Step-IsConsistent {rows} (dispatch i w r) h = record_dispatch-IsConsistent i w rows h r
Step-IsConsistent {rows} (monitor i w n f r v) h = monitor_round-IsConsistent i w rows h n f r v
Step-IsConsistent {rows} (cancel i n) h = request_job_cancellation-IsConsistent i n rows h
Step-IsConsistent {rows} (restart s n) h = reconcile_interrupted_job_runs-IsConsistent s n rows h

-- From the empty table, any sequence of transactions leads to a consistent table: every row sound,
-- at most one row running, at most one active row for each job, and unique ids.
pub reachable_jobs-IsConsistent : {rows : List JobRun} → Reach [] rows → IsConsistent rows
reachable_jobs-IsConsistent here = empty-IsConsistent
reachable_jobs-IsConsistent (next r s) = Step-IsConsistent s (reachable_jobs-IsConsistent r)
