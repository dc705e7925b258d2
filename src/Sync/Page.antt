-- ===== src/Sync/Page.antt =====
-- `_persist_media_page` and `_persist_history_page` of sync/orchestrator.py. A page is
-- one transaction: its items, the counters, the error rows and the checkpoint. The rows of the
-- execution exist (`_required_execution`), as `_acquire` writes them together with the run.
use euvieouvi.Base.{
  ℕ, suc, String, Bool, true, false, Option, some, List, [], ◌∷◌, ◌++◌, if◌then◌else◌, ◌==◌,
}
use euvieouvi.Sync.Media.{ExternalMediaItem, ExternalWatchEvent, PageIssue}
use euvieouvi.Sync.Rows.{
  SyncRun, SyncRunLibrary, SyncCheckpoint, SyncError, Stage, history, complete, raised_by,
  issue_text, repaired_automatically, lower_view_count,
}
use euvieouvi.Sync.Checkpoint.{set_checkpoint}
use euvieouvi.Sync.Catalog.{
  raised, returned, PersistResult, ItemClassification, inserted, updated, unchanged, Services,
}
use euvieouvi.Sync.Persist.{World, Persisted, stored, unstored, persist_media_with_repair}

pub record Execution (Rest : Type 0) : Type 0 where
  pub run : SyncRun
  pub detail : SyncRunLibrary
  pub checkpoint : Option SyncCheckpoint
  pub errors : List SyncError
  pub world : World Rest

-- An error row of the library.
pub item_error : ℕ → Option String → String → SyncError
item_error library_id external_id detail = record {
  library_id = some library_id;
  media_external_id = external_id;
  category = "item_persistence";
  message = raised_by detail;
  retryable = false;
}

-- `_add_auto_reconciliation` and `_add_reconciliation_warning`
pub repair_notes : ℕ → ExternalMediaItem → PersistResult → ℕ → List SyncError
repair_notes library_id item result repaired = repairs ++ warnings
  where
    repairs : List SyncError
    repairs =
        if repaired == 0
        then []
        else record {
          library_id = some library_id;
          media_external_id = some item.external_id;
          category = "catalog_auto_reconciled";
          message = repaired_automatically repaired;
          retryable = false;
        }
          ∷ []

    warnings : List SyncError
    warnings =
        if result.view_count_regression
        then record {
          library_id = some library_id;
          media_external_id = some item.external_id;
          category = "view_count_regression";
          message = lower_view_count;
          retryable = false;
        }
          ∷ []
        else []

module _ {Rest : Type 0} where
  pub page_error : Execution Rest → PageIssue → SyncError
  page_error e issue = record {
    library_id = some e.detail.library_id;
    media_external_id = issue.external_id;
    category = issue.category;
    message = issue_text issue;
    retryable = false;
  }

  unfoldable pub media_issue : Execution Rest → PageIssue → Execution Rest
  unfolding page_error
  media_issue e issue = record e {
    run = record e.run { items_read = suc e.run.items_read; items_failed = suc e.run.items_failed };
    detail = record e.detail {
      items_read = suc e.detail.items_read;
      items_failed = suc e.detail.items_failed;
    };
    errors = e.errors ++ page_error e issue ∷ [];
  }

  unfoldable pub media_issues : List PageIssue → Execution Rest → Execution Rest
  media_issues [] e = e
  media_issues (issue ∷ issues) e = media_issues issues (media_issue e issue)

  -- The counters of a stored item; an unchanged one has no counter in the library's row.
  unfoldable pub classified : ItemClassification → Execution Rest → Execution Rest
  classified inserted e = record e {
    run = record e.run { items_inserted = suc e.run.items_inserted };
    detail = record e.detail { items_inserted = suc e.detail.items_inserted };
  }
  classified updated e = record e {
    run = record e.run { items_updated = suc e.run.items_updated };
    detail = record e.detail { items_updated = suc e.detail.items_updated };
  }
  classified unchanged e = record e {
    run = record e.run { items_unchanged = suc e.run.items_unchanged };
  }

  unfoldable pub event_counted : Bool → Execution Rest → Execution Rest
  event_counted true e = record e {
    run = record e.run { events_inserted = suc e.run.events_inserted };
  }
  event_counted false e = e

  unfoldable pub item_read : Execution Rest → Execution Rest
  item_read e = record e {
    run = record e.run { items_read = suc e.run.items_read };
    detail = record e.detail { items_read = suc e.detail.items_read };
  }

  unfoldable pub recorded : ExternalMediaItem → Persisted → Execution Rest → Execution Rest
  unfolding item_error repair_notes
  recorded item (unstored detail repaired) e = record e {
    run = record e.run { items_failed = suc e.run.items_failed };
    detail = record e.detail { items_failed = suc e.detail.items_failed };
    errors = e.errors ++ item_error e.detail.library_id (some item.external_id) detail ∷ [];
  }
  recorded item (stored result repaired) e =
      let counted = event_counted result.event_inserted (classified result.classification e) in
      record counted { errors = e.errors ++ repair_notes e.detail.library_id item result repaired }

  module _ (services : Services Rest) where
    unfoldable pub media_item : ℕ → ExternalMediaItem → Execution Rest → Execution Rest
    media_item now item e =
        let (answer, world) = persist_media_with_repair services now item e.world in
        recorded item answer (record (item_read e) { world = world })

    unfoldable pub media_items : ℕ → List ExternalMediaItem → Execution Rest → Execution Rest
    media_items now [] e = e
    media_items now (item ∷ items) e = media_items now items (media_item now item e)

    unfoldable pub persist_media_page :
        ℕ
        → List ExternalMediaItem
        → List PageIssue
        → ℕ
        → Option ℕ
        → Stage
        → ℕ
        → Execution Rest
        → Execution Rest
    persist_media_page now items issues items_scanned items_total next_stage next_start e =
        let done = media_items now items (media_issues issues e) in
        record done {
          run = record done.run { heartbeat_at = some now };
          detail = record done.detail { items_scanned = items_scanned; items_total = items_total };
          checkpoint =
              some (
                set_checkpoint services.json now done.run.id next_stage next_start done.checkpoint);
        }

    -- A failed event counts for the run, and not for the library's row.
    unfoldable pub history_event : ExternalWatchEvent → Execution Rest → Execution Rest
    unfolding item_error
    history_event event e = elim (services.persist_event event e.world.catalog) [
      | raised detail ↦ record e {
        run = record e.run { items_failed = suc e.run.items_failed };
        errors =
            e.errors ++ item_error e.detail.library_id (some event.media_external_id) detail ∷ [];
      }
      | returned (is_new, c) ↦
          event_counted is_new (record e { world = record e.world { catalog = c } })
    ]

    unfoldable pub history_events : List ExternalWatchEvent → Execution Rest → Execution Rest
    history_events [] e = e
    history_events (event ∷ events) e = history_events events (history_event event e)

  unfoldable pub history_issue : Execution Rest → PageIssue → Execution Rest
  unfolding page_error
  history_issue e issue = record e {
    run = record e.run { items_failed = suc e.run.items_failed };
    detail = record e.detail { items_failed = suc e.detail.items_failed };
    errors = e.errors ++ page_error e issue ∷ [];
  }

  unfoldable pub history_issues : List PageIssue → Execution Rest → Execution Rest
  history_issues [] e = e
  history_issues (issue ∷ issues) e = history_issues issues (history_issue e issue)

  unfoldable pub persist_history_page :
      Services Rest
      → ℕ
      → List ExternalWatchEvent
      → List PageIssue
      → ℕ
      → Bool
      → Execution Rest
      → Execution Rest
  persist_history_page services now items issues next_start is_complete e =
      let done = history_events services items (history_issues issues e) in
      record done {
        run = record done.run { heartbeat_at = some now };
        checkpoint = some (
            set_checkpoint services.json now done.run.id (if is_complete then complete else history)
              next_start done.checkpoint);
      }
