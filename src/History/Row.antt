-- ===== src/History/Row.antt =====
-- Completed playbacks: `ExternalWatchEvent` of connectors/dtos.py and the row of `watch_events`
-- (database/models.py), with its lookups.
use Prim.Native.String.{slice, len}
use euvieouvi.Base.{
  ℕ, ◌+◌, ◌-◌, ◌*◌, String, Bool, false, ◌&&◌, Option, none, some, List, [], ◌∷◌, ◌==◌, leb, max,
  suc, str_eq,
}
use euvieouvi.Tasks.Row.{AsyncTask}
use euvieouvi.Watch.Rows.{WatchState, SourceMediaRef}

pub record ExternalEvent : Type 0 where
  pub media_external_id : String
  pub library_external_id : Option String
  pub watched_at : ℕ
  pub completed : Bool
  pub source_event_id : Option String
  pub progress_ms : Option ℕ
  pub duration_ms : Option ℕ
  pub view_number : Option ℕ
  pub playback_user : Option String

pub record WatchEvent : Type 0 where
  pub id : ℕ
  pub media_item_id : ℕ
  pub source_id : ℕ
  pub source_event_id : Option String
  pub dedup_key : String
  pub watched_at : ℕ
  pub completed : Bool
  pub progress_ms : Option ℕ
  pub duration_ms : Option ℕ
  pub view_number : Option ℕ
  pub playback_user : Option String
  pub origin : String
  pub updated_at : ℕ

pub record Tables : Type 0 where
  pub references : List SourceMediaRef
  pub events : List WatchEvent
  pub states : List WatchState
  pub tasks : List AsyncTask

-- `SourceMediaRefRepository.by_external_identity`
abbrev pub has_identity : ℕ → String → SourceMediaRef → Bool
has_identity source external_id r = (r.source_id == source) && str_eq r.external_id external_id

-- `WatchEventRepository.by_source_event_id`
abbrev pub same_text : Option String → String → Bool
same_text none text = false
same_text (some a) text = str_eq a text

abbrev pub has_event_id : ℕ → String → WatchEvent → Bool
has_event_id source event_id e = (e.source_id == source) && same_text e.source_event_id event_id

-- `WatchEventRepository.by_dedup_key`
abbrev pub has_dedup_key : ℕ → String → WatchEvent → Bool
has_dedup_key source key e = (e.source_id == source) && str_eq e.dedup_key key

-- `timedelta(minutes=2)`
abbrev pub two_minutes : ℕ
two_minutes = 2 * 60_000_000

-- The completed events of the item at most two minutes away. Times are added, so none is cut off at 0.
abbrev pub is_nearby : ℕ → ℕ → WatchEvent → Bool
is_nearby item watched_at e =
    (e.media_item_id == item)
    && e.completed
    && leb watched_at (e.watched_at + two_minutes)
    && leb e.watched_at (watched_at + two_minutes)

-- The completed events that `_apply_event_to_watch_state` counts.
abbrev pub counts_for : ℕ → ℕ → WatchEvent → Bool
counts_for item source e = (e.media_item_id == item) && (e.source_id == source) && e.completed

-- `text.endswith(suffix)`
unfoldable pub ends_with : String → String → Bool
ends_with text suffix = str_eq (slice text (len text - len suffix) (len text)) suffix

-- The next id of the table.
unfoldable pub next_event_id : List WatchEvent → ℕ
next_event_id [] = 1
next_event_id (e ∷ events) = max (suc e.id) (next_event_id events)
