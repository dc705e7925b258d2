-- ===== src/Jobs/Row.antt =====
-- The row of `job_runs` (database/models.py), its enumerations (database/enums.py), and the
-- registered jobs with their priorities and dependencies (sync/jobs.py, sync/job_worker.py).
-- A point in time is a number of microseconds.
use euvieouvi.Base.{
  ℕ, ◌*◌, String, Bool, true, false, Option, none, some, List, [], ◌∷◌, str_eq, if◌then◌else◌, any,
}

pub data SyncStatus : Type 0 where
  queued running succeeded failed interrupted : SyncStatus

pub data SyncTrigger : Type 0 where
  manual api scheduled : SyncTrigger

abbrev pub is_queued : SyncStatus → Bool
is_queued queued = true
is_queued _ = false

abbrev pub is_running : SyncStatus → Bool
is_running running = true
is_running _ = false

-- `status in {QUEUED, RUNNING}`
abbrev pub is_active : SyncStatus → Bool
is_active queued = true
is_active running = true
is_active _ = false

-- What `_serialize_reference` writes: `sync:<id>` or `executor:<name>`.
pub data Reference : Type 0 where
  sync : ℕ → Reference
  executor : String → Reference

-- The texts that the code writes into `summary`, each with the values that it interpolates.
pub data Summary : Type 0 where
  waiting_for_worker claimed_by_worker started_by_worker recovered_after_restart : Summary
  cancelled_preserved cancelled_while_waiting cancelled_before_start : Summary
  cancelled_on_recovery exhausted_on_recovery cancellation_requested : Summary
  retrying : (attempt : ℕ) (detail : String) (delay : ℕ) → Summary
  gave_up : (attempt : ℕ) (detail : String) → Summary
  reported : String → Summary
  no_summary : Summary  -- NULL

abbrev pub seconds : ℕ → ℕ
seconds n = n * 1_000_000

-- `name` and `description` of a `JobDefinition` are only displayed.
pub record JobDefinition : Type 0 where
  pub id : String
  pub default_time : String

abbrev job : String → String → JobDefinition
job id default_time = record { id = id; default_time = default_time }

abbrev pub jobs : List JobDefinition
jobs =
    job "sync_plex" "03:00"
    ∷ job "watched_plex_to_jellyfin" "03:15"
    ∷ job "watched_jellyfin_to_plex" "03:30"
    ∷ job "sync_jellyfin" "03:45"
    ∷ job "metadata" "04:00"
    ∷ job "catalog_images" "04:30"
    ∷ job "catalog_reconcile" "04:45"
    ∷ job "async_tasks" "00:30"
    ∷ job "maintenance" "05:00"
    ∷ []

-- `job_id in JOB_BY_ID`
unfoldable pub is_job : String → Bool
unfolding any
is_job job_id = any (λ j. str_eq j.id job_id) jobs

unfoldable pub job_priority : String → ℕ
job_priority job_id =
    if str_eq job_id "sync_plex"
    then 10
    else if str_eq job_id "watched_plex_to_jellyfin"
    then 20
    else if str_eq job_id "watched_jellyfin_to_plex"
    then 30
    else if str_eq job_id "sync_jellyfin"
    then 40
    else if str_eq job_id "metadata"
    then 50
    else if str_eq job_id "catalog_images"
    then 60
    else if str_eq job_id "catalog_reconcile"
    then 70
    else if str_eq job_id "async_tasks"
    then 80
    else if str_eq job_id "maintenance"
    then 90
    else 999

unfoldable pub job_dependencies : String → List String
job_dependencies job_id =
    if str_eq job_id "watched_plex_to_jellyfin"
    then "sync_plex" ∷ []
    else if str_eq job_id "watched_jellyfin_to_plex"
    then "sync_plex" ∷ "watched_plex_to_jellyfin" ∷ []
    else if str_eq job_id "sync_jellyfin"
    then "sync_plex" ∷ "watched_plex_to_jellyfin" ∷ "watched_jellyfin_to_plex" ∷ []
    else []

pub record JobRun : Type 0 where
  pub id : ℕ
  pub job_id : String
  pub trigger : SyncTrigger
  pub status : SyncStatus
  pub created_at : ℕ
  pub started_at : Option ℕ
  pub finished_at : Option ℕ
  pub available_at : Option ℕ
  pub heartbeat_at : Option ℕ
  pub lease_expires_at : Option ℕ
  pub lease_owner : Option String
  pub cancel_requested_at : Option ℕ
  pub attempt_count : ℕ
  pub max_attempts : ℕ
  pub execution_reference : Option Reference
  pub progress_percent : ℕ
  pub processed : ℕ
  pub updated : ℕ
  pub failed : ℕ
  pub summary : Summary
  -- `f"{job_id}-{id}.log"`, by its two parts
  pub log_filename : Option (String × ℕ)

-- `run.lease_owner == worker_id`
abbrev pub owned_by : String → JobRun → Bool
owned_by worker_id run = elim run.lease_owner [ none ↦ false | some owner ↦ str_eq owner worker_id ]
