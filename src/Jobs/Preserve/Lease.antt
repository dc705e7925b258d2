-- ===== src/Jobs/Preserve/Lease.antt =====
-- Renewing, recovering and failing keep `IsConsistent`.
use euvieouvi.Base.{ℕ, ◌≡◌, String, Bool, true, List, arith, All-map}
use euvieouvi.Jobs.Row.{JobRun, is_running, is_active, owned_by}
use euvieouvi.Jobs.Invariant.{IsSound, IsConsistent, IsTame, update_where-IsTame}
use euvieouvi.Jobs.Lease.{
  holds_lease, renewed, renew_job_lease, needs_recovery, recover_row, recover_job_runs,
}
use euvieouvi.Jobs.Retry.{is_own, fail_row, fail_or_retry_job}

renewed-IsTame :
    (now : ℕ) (r : JobRun) → IsSound r → is_running r.status ≡ true → IsTame (renewed now) r
unfolding renewed
renewed-IsTame now r s e = ground arith

recover_row-IsTame :
    (now : ℕ) (r : JobRun) → IsSound r → is_active r.status ≡ true → IsTame (recover_row now) r
unfolding recover_row
recover_row-IsTame now r s e = ground arith

fail_row-IsTame :
    (detail : String) (now : ℕ) (r : JobRun)
    → IsSound r
    → is_active r.status ≡ true
    → IsTame (fail_row detail now) r
unfolding fail_row
fail_row-IsTame detail now r s e = ground arith

-- A row that a worker owns is active.
pub owned_active :
    (worker_id : String) (r : JobRun)
    → IsSound r
    → owned_by worker_id r ≡ true
    → is_running r.status ≡ true
owned_active worker_id r s e = ground arith

module _ (rows : List JobRun) (h : IsConsistent rows) where
  pub renew_job_lease-IsConsistent :
      (run_id : ℕ) (worker_id : String) (now : ℕ)
      → IsConsistent (renew_job_lease run_id worker_id now rows).1
  unfolding renew_job_lease
  renew_job_lease-IsConsistent run_id worker_id now =
      update_where-IsTame (holds_lease run_id worker_id) (renewed now) rows h
        (All-map rows (λ r s e. renewed-IsTame now r s (ground arith)) h.sound)

  pub recover_job_runs-IsConsistent :
      (force : Bool) (now : ℕ) → IsConsistent (recover_job_runs force now rows).1
  unfolding recover_job_runs
  recover_job_runs-IsConsistent force now =
      update_where-IsTame (needs_recovery force now) (recover_row now) rows h (
        All-map rows (λ r s e. recover_row-IsTame now r s (unfold needs_recovery in ground arith))
          h.sound)

  pub fail_or_retry_job-IsConsistent :
      (run_id : ℕ) (worker_id detail : String) (now : ℕ)
      → IsConsistent (fail_or_retry_job run_id worker_id detail now rows)
  unfolding fail_or_retry_job
  fail_or_retry_job-IsConsistent run_id worker_id detail now =
      update_where-IsTame (is_own run_id worker_id) (fail_row detail now) rows h (
        All-map rows
          (λ r s e. fail_row-IsTame detail now r s (ground (arith, owned_active worker_id r s)))
          h.sound)
