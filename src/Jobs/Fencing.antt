-- ===== src/Jobs/Fencing.antt =====
-- A worker that lost its lease, and what a recovery leaves behind.
use euvieouvi.Base.{
  ℕ, ◌≡◌, String, Bool, true, false, none, List, arith, All, All-map, All-tabulate,
  All-update_where, update_where-none, count-none, ◌==◌,
}
use euvieouvi.Jobs.Row.{JobRun, is_running}
use euvieouvi.Jobs.Lease.{
  needs_recovery, lease_is_over, recover_row, recover_job_runs, holds_lease, renew_job_lease,
}
use euvieouvi.Jobs.Retry.{is_own, fail_or_retry_job}

recover_row-id : (now : ℕ) (r : JobRun) → (recover_row now r).id ≡ r.id
unfolding recover_row
recover_row-id now r = ground arith

recover_row-owner : (now : ℕ) (r : JobRun) → (recover_row now r).lease_owner ≡ none
unfolding recover_row
recover_row-owner now r = ground arith

recover_row-idle : (now : ℕ) (r : JobRun) → is_running (recover_row now r).status ≡ false
unfolding recover_row
recover_row-idle now r = ground arith

-- After a recovery, a running row has a lease that is not over; after a forced one nothing runs.
pub recover_job_runs-leases :
    (force : Bool) (now : ℕ) (rows : List JobRun)
    → All
        (λ r. is_running r.status ≡ true → (force ≡ false) × (lease_is_over now r ≡ false))
        (recover_job_runs force now rows).1
unfolding recover_job_runs
recover_job_runs-leases force now rows =
    All-update_where (needs_recovery force now) (recover_row now) rows
      (λ r _ e run. absurd (ground (arith, recover_row-idle now r)))
      (λ r _ e run. unfold needs_recovery in ground arith)
      (All-tabulate {P = λ _. Unit {0}} rows (λ _. tt))

-- No row that a recovery took has an owner.
disowned :
    (force : Bool) (now run_id : ℕ) (worker_id : String) (rows : List JobRun)
    → All (λ r. (r.id == run_id) ≡ true → needs_recovery force now r ≡ true) rows
    → All (λ r. is_own run_id worker_id r ≡ false) (recover_job_runs force now rows).1
unfolding recover_job_runs
disowned force now run_id worker_id rows =
    All-update_where (needs_recovery force now) (recover_row now) rows
      (λ r _ e. ground (arith, recover_row-owner now r)) (λ r h e. ground arith)

module _ (run_id : ℕ) (worker_id : String) where
  without_lease :
      (later : ℕ) (rows : List JobRun)
      → All (λ r. is_own run_id worker_id r ≡ false) rows
      → renew_job_lease run_id worker_id later rows ≡ (false, rows)
  unfolding renew_job_lease
  without_lease later rows lost =
      let free =
        All-map {Q = λ r. holds_lease run_id worker_id r ≡ false} rows (λ r e. ground arith) lost in
      rw (count-none _ rows free, update_where-none _ _ rows free)

  without_run :
      (detail : String) (later : ℕ) (rows : List JobRun)
      → All (λ r. is_own run_id worker_id r ≡ false) rows
      → fail_or_retry_job run_id worker_id detail later rows ≡ rows
  unfolding fail_or_retry_job
  without_run detail later rows lost = update_where-none _ _ rows lost

-- Once the run was recovered, its former worker can neither renew the lease nor end the run: both
-- calls leave the table as it is, and the renewal reports failure.
pub recover_job_runs-fences :
    (force : Bool) (now run_id later : ℕ) (worker_id detail : String) (rows : List JobRun)
    → All (λ r. (r.id == run_id) ≡ true → needs_recovery force now r ≡ true) rows
    → let after : List JobRun = (recover_job_runs force now rows).1 in
      (renew_job_lease run_id worker_id later after ≡ (false, after))
      × (fail_or_retry_job run_id worker_id detail later after ≡ after)
recover_job_runs-fences force now run_id later worker_id detail rows h =
    let after : List JobRun = (recover_job_runs force now rows).1 in
    let lost = disowned force now run_id worker_id rows h in
    (
      without_lease run_id worker_id later after lost,
      without_run run_id worker_id detail later after lost,
    )
