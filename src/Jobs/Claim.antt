-- ===== src/Jobs/Claim.antt =====
-- `claim_next_job` and `seconds_until_next_job` of sync/job_worker.py.
use euvieouvi.Base.{
  ℕ, suc, ◌+◌, String, Bool, true, false, not, ◌&&◌, Option, none, some, List, str_eq,
  if◌then◌else◌, ltb, leb, ◌==◌, any, where_, find_first, order_by, update_where, count,
}
use euvieouvi.Jobs.Row.{
  JobRun, is_queued, is_running, running, seconds, job_priority, job_dependencies,
  claimed_by_worker,
}

abbrev pub lease_seconds : ℕ
lease_seconds = 45

-- `available_at IS NULL OR available_at <= now`
abbrev pub is_available : ℕ → JobRun → Bool
is_available now run = elim run.available_at [ none ↦ true | some t ↦ leb t now ]

abbrev pub is_candidate : ℕ → JobRun → Bool
is_candidate now run = is_queued run.status && is_available now run

-- SQLite sorts a NULL before every time.
abbrev pub available_key : JobRun → ℕ
available_key run = elim run.available_at [ none ↦ 0 | some t ↦ suc t ]

-- `ORDER BY priority, available_at, id`
unfoldable pub before : JobRun → JobRun → Bool
before a b =
    if ltb (job_priority a.job_id) (job_priority b.job_id)
    then true
    else if ltb (job_priority b.job_id) (job_priority a.job_id)
    then false
    else if ltb (available_key a) (available_key b)
    then true
    else if ltb (available_key b) (available_key a)
    then false
    else leb a.id b.id

-- An earlier queued row of a job that this one depends on.
unfoldable pub blocks : JobRun → JobRun → Bool
unfolding any
blocks item dependency =
    any (λ d. str_eq d dependency.job_id) (job_dependencies item.job_id)
    && ltb dependency.id item.id

unfoldable pub is_blocked : List JobRun → JobRun → Bool
unfolding any
is_blocked queue item = any (blocks item) queue

unfoldable pub pick : ℕ → List JobRun → Option JobRun
pick now rows =
    find_first (λ item. not (is_blocked (where_ (λ r. is_queued r.status) rows) item))
      (order_by before (where_ (is_candidate now) rows))

-- The values that the claiming UPDATE writes.
unfoldable pub claim_row : String → ℕ → JobRun → JobRun
claim_row worker_id now run = record run {
  status = running;
  started_at = some now;
  finished_at = none;
  heartbeat_at = some now;
  lease_expires_at = some (now + seconds lease_seconds);
  lease_owner = some worker_id;
  attempt_count = run.attempt_count + 1;
  progress_percent = 0;
  summary = claimed_by_worker;
}

abbrev pub has_running : List JobRun → Bool
has_running rows = any (λ r. is_running r.status) rows

-- The WHERE of that UPDATE: the candidate, still queued, and no running row in the table.
abbrev pub is_claimable : ℕ → List JobRun → JobRun → Bool
is_claimable candidate_id rows r =
    (r.id == candidate_id) && is_queued r.status && not (has_running rows)

unfoldable pub claim_update : String → ℕ → ℕ → List JobRun → List JobRun
unfolding update_where
claim_update worker_id now candidate_id rows =
    update_where (is_claimable candidate_id rows) (claim_row worker_id now) rows

-- The result is the id when the UPDATE changed a row (`rowcount`).
unfoldable pub claim_next_job : String → ℕ → List JobRun → Option ℕ × List JobRun
claim_next_job worker_id now rows = elim (pick now rows) [
  | none ↦ (none, rows)
  | some candidate ↦ (
    (if 0 == count (is_claimable candidate.id rows) rows then none else some candidate.id),
    claim_update worker_id now candidate.id rows,
  )
]
