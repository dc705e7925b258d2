-- ===== src/Jobs/Preserve/Execution.antt =====
-- Starting, dispatching, monitoring, cancelling and closing keep `IsConsistent`.
use euvieouvi.Base.{
  ℕ, ◌≡◌, inl, inr, sym, subst, String, Bool, true, false, Option, none, some, List, is_some, arith,
  Bool-cases, Option-cases, All-map, find_first-some, update_where,
}
use euvieouvi.Jobs.Row.{JobRun, Reference, is_active, owned_by, running}
use euvieouvi.Jobs.Invariant.{IsSound, IsConsistent, IsTame, runs, same_row, update_where-IsTame}
use euvieouvi.Jobs.Execute.{
  has_id, get_run, is_claimed, cancel_before_start, start_claimed_job, set_reference,
  record_dispatch, cancel_row, request_job_cancellation,
}
use euvieouvi.Jobs.Monitor.{
  SyncRun, Snapshot, Report, sync_report, snapshot_report, monitored, monitor_round,
}
use euvieouvi.Jobs.Reconcile.{
  copy_sync_result, referenced_sync, reconcile_completed_sync_job, close_completed,
  reconcile_interrupted_job_runs,
}
use euvieouvi.Jobs.Preserve.Lease.{owned_active, recover_job_runs-IsConsistent}

-- A write to the row that a read by id has found.
module _ (id : ℕ) (f : JobRun → JobRun) (rows : List JobRun) (h : IsConsistent rows) where
  pub update_found-IsTame :
      (run : JobRun)
      → get_run id rows ≡ some run
      → (IsSound run → IsTame f run)
      → IsConsistent (update_where (has_id id) f rows)
  update_found-IsTame run found tame =
      let (s, _) = find_first-some IsSound (has_id id) rows run found h.sound in
      update_where-IsTame (has_id id) f rows h (
        All-map rows (λ r same e. subst (IsTame f) (sym (same e)) (tame s))
          (same_row id rows run (h.unique_ids id) found))

cancel_before_start-IsTame :
    (worker_id : String) (now : ℕ) (r : JobRun)
    → is_claimed worker_id r ≡ true
    → IsSound r
    → IsTame (cancel_before_start now) r
unfolding cancel_before_start
cancel_before_start-IsTame worker_id now r e s = ground arith

set_reference-IsTame :
    (reference : Reference) (r : JobRun) → IsSound r → IsTame (set_reference reference) r
unfolding set_reference
set_reference-IsTame reference r s = ground arith

cancel_row-IsTame :
    (now : ℕ) (r : JobRun) → is_active r.status ≡ true → IsSound r → IsTame (cancel_row now) r
unfolding cancel_row
cancel_row-IsTame now r e s = ground arith

-- A report is of a run that goes on, or of one that has ended.
pub record IsReport (p : Report) : Type 0 where
  pub going : p.active ≡ true → p.status ≡ running
  pub ended : p.active ≡ false → is_active p.status ≡ false

pub sync_report-IsReport : (s : Option SyncRun) → IsReport (sync_report s)
unfolding sync_report
sync_report-IsReport none = ground arith
sync_report-IsReport (some s) = ground arith

pub snapshot_report-IsReport : (s : Snapshot) → IsReport (snapshot_report s)
unfolding snapshot_report
snapshot_report-IsReport s = ground arith

monitored-IsTame :
    (worker_id : String) (now : ℕ) (p : Report) (r : JobRun)
    → IsReport p
    → owned_by worker_id r ≡ true
    → IsSound r
    → IsTame (monitored worker_id now p) r
unfolding monitored
monitored-IsTame worker_id now p r v e s = elim (Bool-cases p.active) [
  | inl a ↦ let going = v.going a in let live = owned_active worker_id r s e in ground arith
  | inr a ↦ let ended = v.ended a in let live = owned_active worker_id r s e in ground arith
]

module _ (run_id : ℕ) (worker_id : String) (rows : List JobRun) (h : IsConsistent rows) where
  pub start_claimed_job-IsConsistent :
      (now : ℕ) → IsConsistent (start_claimed_job run_id worker_id now rows).1
  unfolding start_claimed_job
  start_claimed_job-IsConsistent now = elim (Option-cases (get_run run_id rows)) [
    | inl e ↦ rw (e, start_claimed_job) h
    | inr (run, e) ↦
        rw (e, start_claimed_job)
          (elim (Bool-cases (is_claimed worker_id run)) [
            | inl mine ↦ rw mine (elim (Bool-cases (is_some run.cancel_requested_at)) [
              | inl c ↦ rw c (
                  update_found-IsTame run_id (cancel_before_start now) rows h run e
                    (cancel_before_start-IsTame worker_id now run mine))
              | inr c ↦ rw c h
            ])
            | inr other ↦ rw other h
          ])
  ]

  pub record_dispatch-IsConsistent :
      (reference : Option Reference)
      → IsConsistent (record_dispatch run_id worker_id reference rows).1
  unfolding record_dispatch
  record_dispatch-IsConsistent none = h
  record_dispatch-IsConsistent (some reference) = elim (Option-cases (get_run run_id rows)) [
    | inl e ↦ rw (e, record_dispatch) h
    | inr (run, e) ↦
        rw (e, record_dispatch)
          (elim (Bool-cases (is_claimed worker_id run)) [
            | inl mine ↦ rw mine (
                update_found-IsTame run_id (set_reference reference) rows h run e
                  (set_reference-IsTame reference run))
            | inr other ↦ rw other h
          ])
  ]

  pub monitor_round-IsConsistent :
      (now : ℕ) (forwarded : Bool) (report : Report)
      → IsReport report
      → IsConsistent (monitor_round run_id worker_id now forwarded report rows).rows
  unfolding monitor_round
  monitor_round-IsConsistent now forwarded report v = elim (Option-cases (get_run run_id rows)) [
    | inl e ↦ rw (e, monitor_round) h
    | inr (run, e) ↦
        rw (e, monitor_round)
          (elim (Bool-cases (owned_by worker_id run)) [
            | inl mine ↦ rw mine (
                update_found-IsTame run_id (monitored worker_id now report) rows h run e
                  (monitored-IsTame worker_id now report run v mine))
            | inr other ↦ rw other h
          ])
  ]

pub request_job_cancellation-IsConsistent :
    (run_id now : ℕ) (rows : List JobRun)
    → IsConsistent rows
    → IsConsistent (request_job_cancellation run_id now rows).1
unfolding request_job_cancellation
request_job_cancellation-IsConsistent run_id now rows h =
    elim (Option-cases (get_run run_id rows)) [
      | inl e ↦ rw (e, request_job_cancellation) h
      | inr (run, e) ↦
          rw (e, request_job_cancellation)
            (elim (Bool-cases (is_active run.status)) [
              | inl a ↦ rw a (
                  update_found-IsTame run_id (cancel_row now) rows h run e
                    (cancel_row-IsTame now run a))
              | inr a ↦ rw a h
            ])
    ]

copy_sync_result-IsTame :
    (now : ℕ) (s : SyncRun) (r : JobRun)
    → is_active s.status ≡ false
    → IsSound r
    → IsTame (copy_sync_result now s) r
unfolding copy_sync_result
copy_sync_result-IsTame now s r e h = ground arith

close_completed-IsTame :
    (runs : List SyncRun) (now : ℕ) (r : JobRun) → IsSound r → IsTame (close_completed runs now) r
unfolding close_completed reconcile_completed_sync_job
close_completed-IsTame runs now r h = elim (Option-cases (referenced_sync runs r)) [
  | inl e ↦ ground arith
  | inr (s, e) ↦ elim (Bool-cases (is_active s.status)) [
    | inl a ↦ ground arith
    | inr a ↦ let closed = copy_sync_result-IsTame now s r a h in ground arith
  ]
]

pub reconcile_interrupted_job_runs-IsConsistent :
    (runs : List SyncRun) (now : ℕ) (rows : List JobRun)
    → IsConsistent rows
    → IsConsistent (reconcile_interrupted_job_runs runs now rows).1
unfolding reconcile_interrupted_job_runs
reconcile_interrupted_job_runs-IsConsistent runs now rows h =
    recover_job_runs-IsConsistent
      (update_where (λ r. is_active r.status) (close_completed runs now) rows)
      (update_where-IsTame (λ r. is_active r.status) (close_completed runs now) rows h
        (All-map rows (λ r s e. close_completed-IsTame runs now r s) h.sound))
      true now
