-- ===== src/Sync/Run.antt =====
-- `_acquire`, `run_queued`, `_execute`, `_finish_run` and `_record_run_error` of sync/orchestrator.py.
use euvieouvi.Base.{
  ℕ, suc, String, Bool, true, false, ◌&&◌, Option, none, some, List, [], ◌∷◌, ◌++◌, map,
  if◌then◌else◌, ltb, any,
}
use euvieouvi.Jobs.Row.{SyncStatus, queued, running, succeeded, failed, interrupted, is_active}
use euvieouvi.Sync.Rows.{
  SyncRun, SyncRunLibrary, SyncCheckpoint, SyncError, Summary, queued_run, preparing, with_warnings,
  plain, raised_by,
}
use euvieouvi.Sync.Persist.{World}
use euvieouvi.Sync.Page.{Execution}
use euvieouvi.Sync.Scan.{Setup, Library, Abort, cancelled, unavailable, collected, broken_off}
use euvieouvi.Sync.Library.{sync_library}

pub record SourceRow : Type 0 where
  pub id : ℕ
  pub enabled : Bool

pub data Acquired : Type 0 where
  already_running source_unavailable : Acquired
  acquired : SyncRun → List SyncRunLibrary → Acquired

new_run : ℕ → ℕ → Bool → ℕ → SyncRun
new_run id source_id is_queued now = record {
  id = id;
  source_id = source_id;
  status = if is_queued then queued else running;
  started_at = if is_queued then none else some now;
  finished_at = none;
  heartbeat_at = if is_queued then none else some now;
  items_read = 0;
  items_inserted = 0;
  items_updated = 0;
  items_unchanged = 0;
  items_failed = 0;
  events_inserted = 0;
  summary = some (if is_queued then queued_run else preparing);
}

new_detail : ℕ → Library → SyncRunLibrary
new_detail run_id library = record {
  sync_run_id = run_id;
  library_id = library.id;
  status = queued;
  started_at = none;
  finished_at = none;
  items_read = 0;
  items_inserted = 0;
  items_updated = 0;
  items_failed = 0;
  items_scanned = 0;
  items_total = none;
  message = none;
}

-- `work.sync_runs.running()` are the queued and the running runs. `next_id` is the key that the database gives to the run; `libraries` are the enabled and available
-- ones of the source.
unfoldable pub acquire : Bool → ℕ → ℕ → Option SourceRow → List Library → List SyncRun → Acquired
unfolding new_run new_detail
acquire is_queued next_id now source libraries runs =
    if any (λ r. is_active r.status) runs then already_running else elim source [
      | none ↦ source_unavailable
      | some s ↦
          if s.enabled
          then acquired (new_run next_id s.id is_queued now) (map (new_detail next_id) libraries)
          else source_unavailable
    ]

-- The claim of `run_queued`; `none` is its SyncSourceUnavailableError.
unfoldable pub start_queued : ℕ → Option SyncRun → Option SyncRun
start_queued now none = none
start_queued now (some run) = elim run.status [
  | queued ↦ some (record run { status = running; started_at = some now; heartbeat_at = some now })
  | _ ↦ none
]

-- A run with its libraries' rows and checkpoints; `done` are the libraries that were synchronized.
pub record Slot : Type 0 where
  pub library : Library
  pub detail : SyncRunLibrary
  pub checkpoint : Option SyncCheckpoint

pub record RunState (Rest : Type 0) : Type 0 where
  pub run : SyncRun
  pub slots : List Slot
  pub errors : List SyncError
  pub world : World Rest

-- Why `_execute` leaves its loop; with the state that it leaves.
pub data Executed (Rest : Type 0) : Type 0 where
  executed : RunState Rest → Executed Rest
  stopped : Abort → RunState Rest → Executed Rest

abbrev pub finish_detail : ℕ → SyncStatus → Summary → SyncRunLibrary → SyncRunLibrary
finish_detail now status summary d =
    if is_active d.status
    then record d { status = status; finished_at = some now; message = some summary }
    else d

abbrev is_succeeded : SyncStatus → Bool
is_succeeded succeeded = true
is_succeeded _ = false

abbrev pub finish_slot : ℕ → SyncStatus → Summary → Slot → Slot
finish_slot now status summary s = record s { detail = finish_detail now status summary s.detail }

module _ {Rest : Type 0} where
  unfoldable pub finish_run : ℕ → SyncStatus → Summary → RunState Rest → RunState Rest
  finish_run now status summary s = record s {
    run = record s.run {
      status = status;
      finished_at = some now;
      heartbeat_at = some now;
      summary = some (
          if is_succeeded status && ltb 0 s.run.items_failed
          then with_warnings s.run.items_failed
          else summary);
    };
    slots = map (finish_slot now status summary) s.slots;
  }

  abbrev pub before_library : RunState Rest → Slot → Execution Rest
  before_library s slot = record {
    run = s.run;
    detail = slot.detail;
    checkpoint = slot.checkpoint;
    errors = s.errors;
    world = s.world;
  }

  abbrev pub after_library : List Slot → Slot → List Slot → Execution Rest → RunState Rest
  after_library done slot todo e = record {
    run = e.run;
    slots = done ++ record slot { detail = e.detail; checkpoint = e.checkpoint } ∷ todo;
    errors = e.errors;
    world = e.world;
  }

  -- The loop over the libraries: `s.slots` has the finished ones.
  unfoldable pub execute_slots :
      Setup Rest → ℕ → ℕ → List Slot → RunState Rest → Option (Executed Rest)
  execute_slots setup fuel k [] s = some (executed s)
  execute_slots setup fuel k (slot ∷ todo) s =
      if setup.is_cancelled k
      then some (stopped cancelled (record s { slots = s.slots ++ slot ∷ todo }))
      else elim (sync_library setup slot.library fuel (suc k) (before_library s slot)) [
        | none ↦ none
        | some (collected k' _ e) ↦
            execute_slots setup fuel k' todo (after_library s.slots slot [] e)
        | some (broken_off reason e) ↦ some (stopped reason (after_library s.slots slot todo e))
      ]

  record_run_error : String → String → RunState Rest → RunState Rest
  record_run_error category detail s = record s {
    errors =
        s.errors
        ++ record {
          library_id = none;
          media_external_id = none;
          category = category;
          message = raised_by detail;
          retryable = true;
        }
          ∷ [];
  }

  -- `_execute` with the exceptions that it handles; `category` is the class of a ConnectorError. Where
  -- `finalize_on_success` is false, a successful run stays open for the caller to finish.
  unfoldable pub conclude : Bool → ℕ → String → Executed Rest → SyncStatus × RunState Rest
  unfolding record_run_error
  conclude finalize_on_success now category (executed s) = (
    succeeded,
    if finalize_on_success
        then finish_run now succeeded (plain "Synchronization completed.") s
        else s,
  )
  conclude finalize_on_success now category (stopped cancelled s) =
      (interrupted, finish_run now interrupted (plain "Synchronization was cancelled.") s)
  conclude finalize_on_success now category (stopped (unavailable detail) s) = (
    failed,
    finish_run now failed (plain "Synchronization failed safely.")
        (record_run_error category detail s),
  )

  -- What the caller of an open run ends it with.
  unfoldable pub finish_success : ℕ → Summary → RunState Rest → RunState Rest
  finish_success now summary s = finish_run now succeeded summary s

  unfoldable pub finish_failure : ℕ → String → String → Summary → RunState Rest → RunState Rest
  unfolding record_run_error
  finish_failure now category detail summary s =
      finish_run now failed summary (record_run_error category detail s)
