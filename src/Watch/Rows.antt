-- ===== src/Watch/Rows.antt =====
-- What `WatchSyncService` (sync/watch_sync.py) reads and writes: rows of `watch_states`, completed events of
-- the configured users, available references, and the candidates that it makes of them. Times are numbers
-- in UTC; a row of `watch_states` is unique for its item and source.
use euvieouvi.Base.{
  ℕ, String, Bool, ◌&&◌, Option, List, [], ◌∷◌, ◌++◌, ◌==◌, any, update_where, if◌then◌else◌,
}

pub data ConnectorType : Type 0 where
  plex jellyfin : ConnectorType

abbrev pub other : ConnectorType → ConnectorType
other plex = jellyfin
other jellyfin = plex

-- The ids of the two enabled sources, `by_type`.
pub record Sources : Type 0 where
  pub plex_id : ℕ
  pub jellyfin_id : ℕ

abbrev pub id_of : Sources → ConnectorType → ℕ
id_of sources plex = sources.plex_id
id_of sources jellyfin = sources.jellyfin_id

pub record WatchState : Type 0 where
  pub media_item_id : ℕ
  pub source_id : ℕ
  pub view_count : ℕ
  pub completed : Bool
  pub last_watched_at : Option ℕ
  pub progress_ms : Option ℕ
  pub last_played_at : Option ℕ
  pub observed_at : ℕ

pub record CompletedEvent : Type 0 where
  pub media_item_id : ℕ
  pub source_id : ℕ
  pub watched_at : ℕ

pub record SourceMediaRef : Type 0 where
  pub id : ℕ
  pub media_item_id : ℕ
  pub source_id : ℕ
  pub external_id : String
  pub last_seen_at : ℕ
  pub available : Bool
  pub unavailable_since : Option ℕ

pub record WatchSyncTarget : Type 0 where
  pub media_item_id : ℕ
  pub reference_id : ℕ
  pub external_id : String
  pub last_seen_at : ℕ

pub record WatchSyncCandidate : Type 0 where
  pub target_source_id : ℕ
  pub targets : List WatchSyncTarget
  pub watched_at : Option ℕ
  pub progress_ms : Option ℕ
  pub completed : Bool
  pub last_played_at : Option ℕ

-- What a preparation has read.
pub record Snapshot : Type 0 where
  pub sources : Sources
  pub states : List WatchState
  pub events : List CompletedEvent
  pub references : List SourceMediaRef

abbrev pub has_state_key : ℕ → ℕ → WatchState → Bool
has_state_key item source s = (s.media_item_id == item) && (s.source_id == source)

abbrev pub has_event_key : ℕ → ℕ → CompletedEvent → Bool
has_event_key item source e = (e.media_item_id == item) && (e.source_id == source)

-- The update of the row of a key where there is one, and a new row where there is none.
unfoldable pub put_state :
    ℕ → ℕ → (WatchState → WatchState) → WatchState → List WatchState → List WatchState
put_state item source change new states =
    if any (has_state_key item source) states
    then update_where (has_state_key item source) change states
    else states ++ new ∷ []
