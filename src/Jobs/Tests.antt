-- ===== src/Jobs/Tests.antt =====
-- Runs of the queue on small tables, and the theorems at them.
use euvieouvi.Base.{
  ℕ, ◌≤◌, ◌≡◌, ◌≢◌, ◌⊎◌, refl, String, true, false, none, some, List, [], ◌∷◌, arith, All, Memᴰ,
  update_where, count, any, map, find_first, where_, order_by, ◌==◌,
}
use euvieouvi.Jobs.Row.{
  JobRun, manual, queued, failed, is_job, is_queued, is_running, job_priority, job_dependencies,
}
use euvieouvi.Jobs.Submit.{
  created, submit_job, has_active, next_id, new_run, insert_run, set_log_filename, is_active_for,
}
use euvieouvi.Jobs.Claim.{
  claim_next_job, pick, before, blocks, is_blocked, claim_update, claim_row, has_running,
  is_available,
}
use euvieouvi.Jobs.Lease.{
  recover_job_runs, needs_recovery, recover_row, renew_job_lease, lease_is_over,
}
use euvieouvi.Jobs.Retry.{fail_or_retry_job, fail_row, retry_delay}
use euvieouvi.Jobs.Invariant.{IsConsistent}
use euvieouvi.Jobs.Steps.{here, next, submit, claim, fail, reachable_jobs-IsConsistent}
use euvieouvi.Jobs.Order.{IsEligible, queue_of, claim_next_job-first, claim_next_job-progress}
use euvieouvi.Jobs.Fencing.{recover_job_runs-leases, recover_job_runs-fences}
use euvieouvi.Jobs.Backoff.{cycle, cycle_outcome}
use euvieouvi.Jobs.Outcome.{submit_job-created_iff, submission, with_run}

program : Unit {0}
unfolding submit_job has_active next_id new_run insert_run set_log_filename is_active_for is_job
    claim_next_job pick before blocks is_blocked claim_update claim_row recover_job_runs
    needs_recovery recover_row renew_job_lease fail_or_retry_job fail_row retry_delay job_priority
    job_dependencies update_where count any find_first where_ order_by cycle
program = tt

abbrev submit_to : String → List JobRun → List JobRun
submit_to job_id rows = (submit_job job_id manual 3 100 rows rows rows).1

-- The Jellyfin synchronization is submitted first, and waits for nothing.
abbrev two_jobs : List JobRun
two_jobs = submit_to "sync_plex" (submit_to "sync_jellyfin" [])

abbrev claimed : List JobRun
claimed = (claim_next_job "worker" 200 two_jobs).1

abbrev retried : List JobRun
retried = fail_or_retry_job 2 "worker" "timeout" 300 claimed

claims_plex : (claim_next_job "worker" 200 two_jobs).0 ≡ some 2
unfolding program
claims_plex = refl

-- While the Plex run is on, nothing else is claimed.
claims_nothing : (claim_next_job "other" 200 claimed).0 ≡ none
unfolding program
claims_nothing = refl

retries : map (λ r. r.status) retried ≡ queued ∷ queued ∷ []
unfolding program
retries = refl

reachable_jobs-IsConsistent_example : IsConsistent retried
reachable_jobs-IsConsistent_example = reachable_jobs-IsConsistent (
    next
      (next
        (next (next here (submit "sync_jellyfin" manual 3 100 [] [] (omega arith))) (
          submit "sync_plex" manual 3 100 (submit_to "sync_jellyfin" [])
            (submit_to "sync_jellyfin" []) (omega arith)))
        (claim "worker" 200))
      (fail 2 "worker" "timeout" 300))

claim_next_job-first_example :
    (c : JobRun) × (c.id ≡ 2)
    × Memᴰ c two_jobs
    × IsEligible 200 two_jobs c
    × All (λ r. IsEligible 200 two_jobs r → before c r ≡ true) two_jobs
    × (has_running two_jobs ≡ false)
    × ((claim_next_job "worker" 200 two_jobs).1 ≡ claim_update "worker" 200 2 two_jobs)
claim_next_job-first_example = claim_next_job-first "worker" 200 2 two_jobs claims_plex

idle : has_running two_jobs ≡ false
unfolding program
idle = refl

queue_ready : All (λ r. is_queued r.status ≡ true → is_available 200 r ≡ true) two_jobs
unfolding program
queue_ready = ((λ _. refl), ((λ _. refl), tt))

waiting : queue_of two_jobs ≢ []
unfolding program
waiting e = cc

claim_next_job-progress_example : (id : ℕ) × ((claim_next_job "worker" 200 two_jobs).0 ≡ some id)
claim_next_job-progress_example =
    claim_next_job-progress "worker" 200 two_jobs idle queue_ready waiting

recover_job_runs-leases_example :
    All
      (λ r. is_running r.status ≡ true → (false ≡ false) × (lease_is_over 60_000_000 r ≡ false))
      (recover_job_runs false 60_000_000 claimed).1
recover_job_runs-leases_example = recover_job_runs-leases false 60_000_000 claimed

-- The lease of 45 seconds is over after a minute.
lease_ended : All (λ r. (r.id == 2) ≡ true → needs_recovery false 60_000_000 r ≡ true) claimed
unfolding program
lease_ended = ((λ e. cc), ((λ _. refl), tt))

recover_job_runs-fences_example :
    let after : List JobRun = (recover_job_runs false 60_000_000 claimed).1 in
    (renew_job_lease 2 "worker" 60_000_001 after ≡ (false, after))
    × (fail_or_retry_job 2 "worker" "late" 60_000_001 after ≡ after)
recover_job_runs-fences_example =
    recover_job_runs-fences false 60_000_000 2 60_000_001 "worker" "late" claimed lease_ended

abbrev fresh : JobRun
unfolding new_run
fresh = new_run 7 "metadata" manual 3 100

cycle_outcome_example :
    ((k : ℕ) → k ≤ 2 → (cycle "worker" "timeout" 300 k fresh).status ≡ queued)
    × ((cycle "worker" "timeout" 300 3 fresh).status ≡ failed)
    × ((cycle "worker" "timeout" 300 3 fresh).attempt_count ≡ 3)
unfolding new_run
cycle_outcome_example = cycle_outcome "worker" "timeout" 300 fresh refl refl 2 refl

submit_job-created_iff_example :
    ((is_job "sync_plex" ≡ true)
      × (has_active "sync_plex" two_jobs ≡ false)
      × (has_active "sync_plex" two_jobs ≡ false)
      × (submission "sync_plex" manual 3 400 two_jobs two_jobs two_jobs ≡ (
        created,
        update_where
            (λ r. r.id == next_id two_jobs)
            (set_log_filename (next_id two_jobs))
            (with_run "sync_plex" manual 3 400 two_jobs two_jobs two_jobs),
      )))
    ⊎ (((is_job "sync_plex" ≡ false)
          ⊎ ((has_active "sync_plex" two_jobs ≡ true) ⊎ (has_active "sync_plex" two_jobs ≡ true)))
        × ((submission "sync_plex" manual 3 400 two_jobs two_jobs two_jobs).0 ≢ created)
        × ((submission "sync_plex" manual 3 400 two_jobs two_jobs two_jobs).1 ≡ two_jobs))
submit_job-created_iff_example =
    submit_job-created_iff "sync_plex" manual 3 400 two_jobs two_jobs two_jobs
