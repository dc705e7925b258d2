-- ===== src/Sync/Rows.antt =====
-- The rows that one library's execution in sync/orchestrator.py reads and writes (database/models.py):
-- SyncRun, SyncRunLibrary, SyncCheckpoint, SyncError and SourceMediaRef. Times count microseconds.
use euvieouvi.Base.{ℕ, String, Bool, Option}
use euvieouvi.Jobs.Row.{SyncStatus}
use euvieouvi.Sync.Media.{PageIssue}

-- Progress and closing texts; an item's or a page's own texts are arguments.
pub data Summary : Type 0 where
  queued_run preparing : Summary
  collecting_media collecting_history : ℕ → Summary
  reconciling_states : Summary
  with_warnings : ℕ → Summary
  plain : String → Summary

pub record SyncRun : Type 0 where
  pub id : ℕ
  pub source_id : ℕ
  pub status : SyncStatus
  pub started_at : Option ℕ
  pub finished_at : Option ℕ
  pub heartbeat_at : Option ℕ
  pub items_read : ℕ
  pub items_inserted : ℕ
  pub items_updated : ℕ
  pub items_unchanged : ℕ
  pub items_failed : ℕ
  pub events_inserted : ℕ
  pub summary : Option Summary

pub record SyncRunLibrary : Type 0 where
  pub sync_run_id : ℕ
  pub library_id : ℕ
  pub status : SyncStatus
  pub started_at : Option ℕ
  pub finished_at : Option ℕ
  pub items_read : ℕ
  pub items_inserted : ℕ
  pub items_updated : ℕ
  pub items_failed : ℕ
  pub items_scanned : ℕ
  pub items_total : Option ℕ
  pub message : Option Summary

pub data Stage : Type 0 where
  media history complete : Stage

-- Integers, as JSON has them.
pub data ℤ : Type 0 where
  pos negsuc : ℕ → ℤ

-- What Python's json and conversions make of a cursor: `dumps` is the text of the object with a stage and
-- a start; `loads` is what the try clause of `_resume_position` reads of a text, and `none` for all that
-- its except clause catches.
pub record Json : Type 0 where
  pub dumps : String → ℕ → String
  pub loads : String → Option (String × ℤ)

pub record SyncCheckpoint : Type 0 where
  pub strategy : String
  pub cursor : Option String
  pub watermark_at : Option ℕ
  pub last_full_scan_at : Option ℕ
  pub last_external_id : Option String
  pub last_successful_run_id : Option ℕ
  pub updated_at : ℕ

-- The text of an error row, before it is cut to its first 1000 characters.
pub data Message : Type 0 where
  raised_by : String → Message
  issue_text : PageIssue → Message
  repaired_automatically : ℕ → Message
  lower_view_count : Message

pub record SyncError : Type 0 where
  pub library_id : Option ℕ
  pub media_external_id : Option String
  pub category : String
  pub message : Message
  pub retryable : Bool

pub record SourceMediaRef : Type 0 where
  pub library_id : ℕ
  pub external_id : String
  pub available : Bool
  pub unavailable_since : Option ℕ
