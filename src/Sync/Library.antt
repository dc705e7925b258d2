-- ===== src/Sync/Library.antt =====
-- `_sync_library` of sync/orchestrator.py as a whole: the decision between an incremental and a full
-- scan, the loops, and the writes that close a library.
use euvieouvi.Base.{
  ℕ, ◌+◌, ◌-◌, String, Bool, true, false, ◌&&◌, Option, none, some, List, [], if◌then◌else◌, ◌==◌,
  ltb, leb,
}
use euvieouvi.Jobs.Row.{SyncStatus, running, succeeded}
use euvieouvi.Sync.Media.{HistoryCheckpoint}
use euvieouvi.Sync.Rows.{
  Json, SyncCheckpoint, SyncRunLibrary, Stage, media, Summary, reconciling_states, with_warnings,
}
use euvieouvi.Sync.Checkpoint.{resume_position, complete_checkpoint}
use euvieouvi.Sync.Page.{Execution}
use euvieouvi.Sync.Scan.{
  Setup, Library, Collected, collected, broken_off, full_scan_interval, watermark_overlap,
  mark_missing_unavailable, update_progress, media_loop, history_loop,
}

-- What is fixed when a scan of a library starts.
pub record Plan : Type 0 where
  pub stage : Stage
  pub start : ℕ
  pub scan_started_at : ℕ
  pub periodic_full_scan : Bool
  pub full_catalog_scan : Bool
  pub updated_since : Option ℕ
  pub since : HistoryCheckpoint

abbrev pub is_media : Stage → Bool
is_media media = true
is_media _ = false

-- `scan_started_at - last_full_scan_at >= _FULL_SCAN_INTERVAL`
unfoldable pub full_scan_is_due : ℕ → Option SyncCheckpoint → Bool
full_scan_is_due now none = true
full_scan_is_due now (some c) = elim c.watermark_at [
  | none ↦ true
  | some _ ↦ elim c.last_full_scan_at [
    | none ↦ true
    | some last ↦ leb (last + full_scan_interval) now
  ]
]

watermark : Option SyncCheckpoint → Option ℕ
watermark none = none
watermark (some c) = c.watermark_at

last_id : Option SyncCheckpoint → Option String
last_id none = none
last_id (some c) = c.last_external_id

unfoldable pub plan : Json → ℕ → Option SyncCheckpoint → Plan
unfolding watermark last_id
plan json now c =
    let (stage, start) = resume_position json c in
    let full = full_scan_is_due now c in
    record {
      stage = stage;
      start = start;
      scan_started_at = now;
      periodic_full_scan = full;
      full_catalog_scan = full && is_media stage && (start == 0);
      updated_since = if full then none else watermark c;
      since = record { watermark_at = watermark c; last_external_id = last_id c };
    }

-- `_finish_library` without a message
unfoldable pub finish_library : ℕ → SyncStatus → SyncRunLibrary → SyncRunLibrary
finish_library now status detail = record detail {
  status = status;
  finished_at = some now;
  message = warnings status;
}
  where
    warnings : SyncStatus → Option Summary
    warnings succeeded =
        if ltb 0 detail.items_failed then some (with_warnings detail.items_failed) else none
    warnings _ = none

module _ {Rest : Type 0} (setup : Setup Rest) (library : Library) where
  -- `_start_library`
  abbrev pub start_library : ℕ → Execution Rest → Execution Rest
  start_library now e = record e {
    detail = record e.detail { status = running; started_at = some now };
  }

  unfoldable pub sweep : ℕ → List String → Execution Rest → Execution Rest
  sweep now seen e = record e {
    world = record e.world {
      catalog = record e.world.catalog {
        references = mark_missing_unavailable now library.id seen e.world.catalog.references;
      };
    };
  }

  -- After the last page of the history. `-` does not stop at 0: no clock is within two minutes of it.
  unfoldable pub close_library : Plan → ℕ → Execution Rest → Execution Rest
  unfolding finish_library
  close_library p k e =
      let now = setup.clock k in
      let progressed = update_progress now reconciling_states e in
      record progressed {
        world = record progressed.world {
          catalog = setup.services.rebuild_container_watch_states now progressed.world.catalog;
        };
        checkpoint = some (
            complete_checkpoint now e.run.id (p.scan_started_at - watermark_overlap)
              p.periodic_full_scan e.checkpoint);
        detail = finish_library now succeeded e.detail;
      }

  abbrev pub closed : Plan → Collected Rest → Collected Rest
  closed p (collected k seen e) = collected k seen (close_library p k e)
  closed p (broken_off reason e) = broken_off reason e

  unfoldable pub history_part : Plan → ℕ → ℕ → ℕ → Execution Rest → Option (Collected Rest)
  history_part p fuel k start e = elim (history_loop setup library p.since fuel k start e) [
    | none ↦ none
    | some c ↦ some (closed p c)
  ]

  unfoldable pub after_media : Plan → ℕ → Option (Collected Rest) → Option (Collected Rest)
  unfolding history_part
  after_media p fuel none = none
  after_media p fuel (some (broken_off reason e)) = some (broken_off reason e)
  after_media p fuel (some (collected k seen e)) =
      history_part p fuel k 0 (if p.full_catalog_scan then sweep (setup.clock k) seen e else e)

  -- The fuel bounds the rounds of each loop.
  unfoldable pub sync_library : ℕ → ℕ → Execution Rest → Option (Collected Rest)
  unfolding history_part after_media
  sync_library fuel k e =
      let now = setup.clock k in
      let started = start_library now e in
      let p = plan setup.services.json now e.checkpoint in
      if is_media p.stage
      then after_media p fuel (media_loop setup library p.updated_since fuel k p.start [] started)
      else history_part p fuel k p.start started
