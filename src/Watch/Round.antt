-- ===== src/Watch/Round.antt =====
-- A round of the loop of `WatchSyncService.run` (sync/watch_sync.py), with `_update_progress` and the
-- decision for a full scan of `_incremental_scope`. The answers of the connectors, the clock and the cancellation are read from
-- the rounds, one for each candidate.
use euvieouvi.Base.{
  ℕ, ◌+◌, ◌-◌, ◌*◌, String, Bool, true, false, not, ◌&&◌, Option, none, some, List, [], ◌∷◌, ◌++◌,
  if◌then◌else◌, ◌==◌, leb, length,
}
use euvieouvi.Watch.Rows.{WatchState, SourceMediaRef, WatchSyncTarget, WatchSyncCandidate}
use euvieouvi.Watch.Record.{record_successes, invalidate_reference}

-- How the `try` block of a target ends: without an exception, with a ConnectorNotFoundError, with another
-- exception.
pub data Answer : Type 0 where
  done not_found failed : Answer

pub record Round : Type 0 where
  pub candidate : WatchSyncCandidate
  pub now : ℕ
  pub cancelled : Bool
  pub connected : Bool
  pub answer : WatchSyncTarget → Answer

pub data RunStatus : Type 0 where
  running succeeded failed_run : RunStatus

-- The columns `watch_sync_*` of `sync_runs`.
pub record WatchRun : Type 0 where
  pub status : RunStatus
  pub finished_at : Option ℕ
  pub scanned : ℕ
  pub updated : ℕ
  pub skipped : ℕ
  pub failures : ℕ

-- The settings that a run may set: `watch_sync.pending` and the times of its direction.
pub record Settings : Type 0 where
  pub pending : Option String
  pub last_success_at : Option ℕ
  pub last_full_at : Option ℕ

pub record Tables : Type 0 where
  pub states : List WatchState
  pub references : List SourceMediaRef
  pub run : Option WatchRun
  pub settings : Settings

-- `_FULL_SCAN_INTERVAL`
abbrev pub full_scan_interval : ℕ
full_scan_interval = 7 * 86_400_000_000

-- `_incremental_scope`: whether everything is read again. A time in the future is no week ago.
unfoldable pub is_full_scan : Settings → ℕ → Bool
is_full_scan settings started = elim (settings.last_success_at) [
  | none ↦ true
  | some cutoff ↦ elim (settings.last_full_at) [
    | none ↦ true
    | some last_full ↦ leb full_scan_interval (started - last_full)
  ]
]

-- The loop over the targets of a candidate: whether no exception left it, how many targets answered, how
-- many references were repaired, and the references.
pub record Attempt : Type 0 where
  pub completed : Bool
  pub successful : ℕ
  pub repaired : ℕ
  pub references : List SourceMediaRef

abbrev pub as_number : Bool → ℕ
as_number true = 1
as_number false = 0

-- The branches of the `try` statement of a target.
abbrev pub by_answer : {A : Type 0} → Answer → A → A → A → A
by_answer done succeeds repairs fails = succeeds
by_answer not_found succeeds repairs fails = repairs
by_answer failed succeeds repairs fails = fails

unfoldable pub attempt :
    ℕ → (WatchSyncTarget → Answer) → List WatchSyncTarget → ℕ → ℕ → List SourceMediaRef → Attempt
attempt now answer [] successful repaired references = record {
  completed = true;
  successful = successful;
  repaired = repaired;
  references = references;
}
attempt now answer (target ∷ targets) successful repaired references =
    let (was_available, invalidated) = invalidate_reference now target.reference_id references in
    let after_success = attempt now answer targets (successful + 1) repaired references in
    let after_repair =
      attempt now answer targets successful (repaired + as_number was_available) invalidated in
    let stopped : Attempt = record {
      completed = false;
      successful = successful;
      repaired = repaired;
      references = references;
    } in
    by_answer (answer target) after_success after_repair stopped

pub record Work : Type 0 where
  pub tables : Tables
  pub pending_successes : List WatchSyncCandidate
  pub updated : ℕ
  pub failures : ℕ
  pub repaired : ℕ

abbrev pub map_run : (WatchRun → WatchRun) → Tables → Tables
map_run f t = record {
  states = t.states;
  references = t.references;
  run = elim (t.run) [ none ↦ none | some r ↦ some (f r) ];
  settings = t.settings;
}

unfoldable pub update_progress : ℕ → ℕ → ℕ → ℕ → Tables → Tables
update_progress scanned updated skipped failures = map_run (λ r. record {
  status = r.status;
  finished_at = r.finished_at;
  scanned = scanned;
  updated = updated;
  skipped = skipped;
  failures = failures;
})

-- `_record_successes` with its count in the run
unfoldable pub persist : ℕ → List WatchSyncCandidate → Tables → Tables
persist now candidates t =
    map_run
      (λ r. record {
        status = r.status;
        finished_at = r.finished_at;
        scanned = r.scanned;
        updated = r.updated + length candidates;
        skipped = r.skipped;
        failures = r.failures;
      })
      (record {
        states = record_successes now t.states candidates;
        references = t.references;
        run = t.run;
        settings = t.settings;
      })

-- `_PERSIST_BATCH_SIZE`
abbrev pub persist_batch_size : ℕ
persist_batch_size = 100

-- A candidate that succeeded: the batch is persisted when it is full.
unfoldable pub add_success : Round → Work → Work
add_success round work =
    let pending = work.pending_successes ++ round.candidate ∷ [] in
    if leb persist_batch_size (length pending)
    then record {
      tables = persist round.now pending work.tables;
      pending_successes = [];
      updated = work.updated + 1;
      failures = work.failures;
      repaired = work.repaired;
    }
    else record {
      tables = work.tables;
      pending_successes = pending;
      updated = work.updated + 1;
      failures = work.failures;
      repaired = work.repaired;
    }

unfoldable pub add_failure : Work → Work
add_failure work = record {
  tables = work.tables;
  pending_successes = work.pending_successes;
  updated = work.updated;
  failures = work.failures + 1;
  repaired = work.repaired;
}

unfoldable pub with_repairs : Attempt → Work → Work
with_repairs a work = record {
  tables = record {
    states = work.tables.states;
    references = a.references;
    run = work.tables.run;
    settings = work.tables.settings;
  };
  pending_successes = work.pending_successes;
  updated = work.updated;
  failures = work.failures;
  repaired = a.repaired;
}

unfoldable pub after_attempt : Round → Attempt → Work → Work
after_attempt round a work =
    if a.completed && not (a.successful == 0)
    then add_success round (with_repairs a work)
    else add_failure (with_repairs a work)

-- The body of the loop, up to the progress.
unfoldable pub try_candidate : Round → Work → Work
try_candidate round work =
    let a =
      attempt round.now round.answer round.candidate.targets 0 work.repaired
        work.tables.references in
    if round.connected then after_attempt round a work else add_failure work
