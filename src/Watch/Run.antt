-- ===== src/Watch/Run.antt =====
-- The loop and the end of `WatchSyncService.run` (sync/watch_sync.py), with `_finish`.
use euvieouvi.Base.{ℕ, String, Bool, Option, none, some, List, [], ◌∷◌, if◌then◌else◌, ◌==◌}
use euvieouvi.Watch.Rows.{WatchSyncCandidate}
use euvieouvi.Watch.Round.{
  Round, succeeded, failed_run, Settings, Tables, Work, map_run, update_progress, persist,
  try_candidate,
}

module _ (scanned skipped : ℕ) where
  unfoldable pub show_progress : Work → Work
  show_progress work = record {
    tables = update_progress scanned work.updated skipped work.failures work.tables;
    pending_successes = work.pending_successes;
    updated = work.updated;
    failures = work.failures;
    repaired = work.repaired;
  }

  -- The loop. `none`: the run was cancelled, with these tables.
  unfoldable pub propagate : List Round → Work → Tables × Option Work
  propagate [] work = (work.tables, some work)
  propagate (round ∷ rounds) work =
      let next = propagate rounds (show_progress (try_candidate round work)) in
      if round.cancelled then (work.tables, none) else next

-- The state of `run` before the loop, with the first progress.
unfoldable pub new_work : ℕ → ℕ → Tables → Work
new_work scanned skipped t = record {
  tables = update_progress scanned 0 skipped 0 t;
  pending_successes = [];
  updated = 0;
  failures = 0;
  repaired = 0;
}

-- `if pending_successes: self._record_successes(...)`
unfoldable pub flush : ℕ → List WatchSyncCandidate → Tables → Tables
flush now [] t = t
flush now (candidate ∷ candidates) t = persist now (candidate ∷ candidates) t

abbrev pub cleared : Option String → Option String
cleared none = none
cleared (some value) = some "false"

-- The settings after a run without failures; `incremental` is whether the scan was full.
unfoldable pub move_settings : Bool → Option Bool → ℕ → Settings → Settings
move_settings clear_pending incremental started settings =
    let pending = if clear_pending then cleared settings.pending else settings.pending in
    elim incremental [
      | none ↦ record {
        pending = pending;
        last_success_at = settings.last_success_at;
        last_full_at = settings.last_full_at;
      }
      | some full_scan ↦ record {
        pending = pending;
        last_success_at = some started;
        last_full_at = if full_scan then some started else settings.last_full_at;
      }
    ]

-- `_finish`
module _ (now scanned skipped : ℕ) (clear_pending : Bool) (incremental : Option Bool)
    (started : ℕ) where
  unfoldable pub finish : ℕ → ℕ → Tables → Tables
  finish updated failures t =
      map_run
        (λ r. record {
          status = if failures == 0 then succeeded else failed_run;
          finished_at = some now;
          scanned = scanned;
          updated = updated;
          skipped = skipped;
          failures = failures;
        })
        (record {
          states = t.states;
          references = t.references;
          run = t.run;
          settings =
              if failures == 0
              then move_settings clear_pending incremental started t.settings
              else t.settings;
        })

  unfoldable pub conclude : Tables × Option Work → Tables × Option Work
  conclude (left, none) = (left, none)
  conclude (left, some work) =
      (finish work.updated work.failures (flush now work.pending_successes work.tables), some work)

  -- `run`, from the candidates on. `none` beside the tables: the run was cancelled.
  unfoldable pub run : List Round → Tables → Tables × Option Work
  run rounds t = conclude (propagate scanned skipped rounds (new_work scanned skipped t))
