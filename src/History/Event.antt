-- ===== src/History/Event.antt =====
-- `persist_event` of sync/persistence.py. The key of an event, a hash, is an argument.
use euvieouvi.Base.{
  ℕ, String, Bool, true, false, not, ◌&&◌, Option, none, some, [], ◌∷◌, ◌++◌, if◌then◌else◌, ◌==◌,
  str_eq, find_first, any, update_where,
}
use euvieouvi.Tasks.Row.{Payload}
use euvieouvi.Tasks.Queue.{enqueue}
use euvieouvi.Watch.Rows.{SourceMediaRef}
use euvieouvi.History.Row.{
  ExternalEvent, WatchEvent, Tables, has_identity, has_event_id, has_dedup_key, is_nearby,
  ends_with, next_event_id,
}
use euvieouvi.History.State.{apply_event_to_watch_state}

-- The two errors, or whether an event was inserted, each with the tables that the call leaves.
pub data Persisted : Type 0 where
  unknown_media changed_media : Tables → Persisted
  answered : Bool → Tables → Persisted

-- What is outside: the hashes of events and of payloads, the clock of the queue, and the one of the
-- columns `updated_at`.
pub record Setup : Type 0 where
  pub source_id : ℕ
  pub event_dedup_key : ExternalEvent → String
  pub payload_key : Payload → String
  pub now : ℕ
  pub utc_now : ℕ

abbrev pub same_option_text : Option String → Option String → Bool
same_option_text none none = true
same_option_text (some a) (some b) = str_eq a b
same_option_text _ _ = false

abbrev pub same_number : Option ℕ → Option ℕ → Bool
same_number none none = true
same_number (some a) (some b) = a == b
same_number _ _ = false

abbrev pub same_flag : Bool → Bool → Bool
same_flag true b = b
same_flag false b = not b

-- Whether a row has the same values in the columns that a refresh sets: then no UPDATE is made.
unfoldable pub same_values : WatchEvent → WatchEvent → Bool
same_values a b =
    str_eq a.dedup_key b.dedup_key
    && (a.watched_at == b.watched_at)
    && same_flag a.completed b.completed
    && same_number a.progress_ms b.progress_ms
    && same_number a.duration_ms b.duration_ms
    && same_number a.view_number b.view_number
    && same_option_text a.playback_user b.playback_user
    && str_eq a.origin b.origin

-- The row that is written instead of another, with the time of its UPDATE.
unfoldable pub touched : ℕ → WatchEvent → WatchEvent → WatchEvent
touched now old new = record new {
  updated_at = if same_values old new then old.updated_at else now;
}

module _ (setup : Setup) (origin : String) (event : ExternalEvent) where
  -- An event that the source has named before.
  unfoldable pub refreshed : String → WatchEvent → WatchEvent
  refreshed event_id e = record e {
    dedup_key = setup.event_dedup_key event;
    watched_at = if ends_with event_id ":played-undated" then e.watched_at else event.watched_at;
    completed = event.completed;
    progress_ms = event.progress_ms;
    duration_ms = event.duration_ms;
    view_number = event.view_number;
    playback_user = event.playback_user;
    origin = origin;
  }

  unfoldable pub refresh : String → WatchEvent → WatchEvent
  refresh event_id e = touched setup.utc_now e (refreshed event_id e)

  unfoldable pub new_event : ℕ → ℕ → WatchEvent
  new_event id item = record {
    id = id;
    media_item_id = item;
    source_id = setup.source_id;
    source_event_id = event.source_event_id;
    dedup_key = setup.event_dedup_key event;
    watched_at = event.watched_at;
    completed = event.completed;
    progress_ms = event.progress_ms;
    duration_ms = event.duration_ms;
    view_number = event.view_number;
    playback_user = event.playback_user;
    origin = origin;
    updated_at = setup.utc_now;
  }

  -- The payload of `enqueue_watch_update` for a completed playback
  unfoldable pub watch_update : Payload
  watch_update = record {
    source_id = setup.source_id;
    external_id = event.media_external_id;
    watched_at = event.watched_at;
    progress_ms = none;
    completed = true;
    library_external_id = event.library_external_id;
  }

  -- The insertion, the watch state and the task of a webhook
  unfoldable pub insert_event : ℕ → Tables → Tables
  insert_event item t =
      let events = t.events ++ new_event (next_event_id t.events) item ∷ [] in
      record t {
        events = events;
        states = apply_event_to_watch_state item setup.source_id event events t.states;
        tasks =
            if str_eq origin "webhook"
            then enqueue (setup.payload_key watch_update) watch_update setup.now t.tasks
            else t.tasks;
      }

  -- From the lookup by the key on
  unfoldable pub insert_unless_known : ℕ → Tables → Persisted
  insert_unless_known item t =
      if any (has_dedup_key setup.source_id (setup.event_dedup_key event)) t.events
      then answered false t
      else if any (is_nearby item event.watched_at) t.events
      then answered false t
      else answered true (insert_event item t)

  unfoldable pub refresh_named : ℕ → String → WatchEvent → Tables → Persisted
  refresh_named item event_id existing t =
      if existing.media_item_id == item
      then answered false (record t {
        events = update_where (has_event_id setup.source_id event_id) (refresh event_id) t.events;
      })
      else changed_media t

  -- From the lookup by the name that the source gives the event on
  unfoldable pub persist_found : ℕ → String → Option WatchEvent → Tables → Persisted
  persist_found item event_id none t = insert_unless_known item t
  persist_found item event_id (some existing) t = refresh_named item event_id existing t

  unfoldable pub persist_for : ℕ → Option String → Tables → Persisted
  persist_for item none t = insert_unless_known item t
  persist_for item (some event_id) t =
      persist_found item event_id (find_first (has_event_id setup.source_id event_id) t.events) t

  unfoldable pub persist_referenced : Option SourceMediaRef → Tables → Persisted
  persist_referenced none t = unknown_media t
  persist_referenced (some reference) t =
      persist_for reference.media_item_id event.source_event_id t

  unfoldable pub persist_event : Tables → Persisted
  persist_event t =
      let known =
        persist_referenced
          (find_first (has_identity setup.source_id event.media_external_id) t.references) t in
      if not event.completed then answered false t else known
