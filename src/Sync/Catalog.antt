-- ===== src/Sync/Catalog.antt =====
-- The catalogue behind sync/orchestrator.py, and the services that the orchestrator calls on it: of
-- sync/persistence.py and sync/catalog_reconcile.py, which are arguments here. `Rest` is every table
-- but that of the references.
use euvieouvi.Base.{ℕ, String, Bool, List}
use euvieouvi.Sync.Media.{ExternalMediaItem, ExternalWatchEvent, Identifier, MediaKind}
use euvieouvi.Sync.Rows.{SourceMediaRef, Json}

-- A call returns, or raises an exception with a text.
pub data Try (A : Type 0) : Type 0 where
  raised : String → Try A
  returned : A → Try A

pub record Catalog (Rest : Type 0) : Type 0 where
  pub references : List SourceMediaRef
  pub rest : Rest

pub data ItemClassification : Type 0 where
  inserted updated unchanged : ItemClassification

pub record PersistResult : Type 0 where
  pub classification : ItemClassification
  pub media_item_id : ℕ
  pub view_count_regression : Bool
  pub event_inserted : Bool

pub record Services (Rest : Type 0) : Type 0 where
  pub json : Json
  pub persist_media : ℕ → ExternalMediaItem → Catalog Rest → Try (PersistResult × Catalog Rest)
  pub persist_event : ExternalWatchEvent → Catalog Rest → Try (Bool × Catalog Rest)
  pub reconcile_physical_item : ℕ → Catalog Rest → Try (ℕ × Catalog Rest)
  pub reconcile_matching_items : MediaKind → List Identifier → Catalog Rest → Try (ℕ × Catalog Rest)
  pub rebuild_container_watch_states : ℕ → Catalog Rest → Catalog Rest
