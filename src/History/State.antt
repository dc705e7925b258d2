-- ===== src/History/State.antt =====
-- What playback does to the watch state of an item: `_apply_event_to_watch_state` and `_sync_watch_state` of
-- sync/persistence.py. A row of `watch_states` is unique for its item and source.
use euvieouvi.Base.{
  ℕ, Bool, true, false, ◌&&◌, ◌||◌, Option, none, some, List, max, ltb, if◌then◌else◌, is_none,
  some_or, find_first, count,
}
use euvieouvi.Watch.Rows.{WatchState, has_state_key, put_state}
use euvieouvi.Watch.Decide.{later}
use euvieouvi.History.Row.{ExternalEvent, WatchEvent, counts_for}

module _ (event : ExternalEvent) (event_count : ℕ) where
  unfoldable pub apply_event : WatchState → WatchState
  apply_event s = record s {
    view_count = max s.view_count event_count;
    completed = true;
    last_watched_at = later s.last_watched_at (some event.watched_at);
    last_played_at = later s.last_played_at (some event.watched_at);
    progress_ms = event.progress_ms;
    observed_at = event.watched_at;
  }

  -- The state that is made where there is none.
  unfoldable pub state_of_event : ℕ → ℕ → WatchState
  state_of_event item source = apply_event (record {
    media_item_id = item;
    source_id = source;
    view_count = event_count;
    completed = true;
    last_watched_at = none;
    progress_ms = none;
    last_played_at = none;
    observed_at = event.watched_at;
  })

unfoldable pub apply_event_to_watch_state :
    ℕ → ℕ → ExternalEvent → List WatchEvent → List WatchState → List WatchState
apply_event_to_watch_state item source event events states =
    let event_count = max (some_or event.view_number 0) (count (counts_for item source) events) in
    put_state item source (apply_event event event_count)
      (state_of_event event event_count item source) states

-- What a media item of a connector says of its playback.
pub record Playback : Type 0 where
  pub view_count : Option ℕ
  pub last_viewed_at : Option ℕ
  pub view_offset_ms : Option ℕ
  pub completed : Bool

unfoldable pub sync_state : Playback → ℕ → WatchState → WatchState
sync_state playback observed_at s =
    let incoming_count = some_or playback.view_count 0 in
    record s {
      view_count = max s.view_count incoming_count;
      last_watched_at = later playback.last_viewed_at s.last_watched_at;
      last_played_at = later playback.last_viewed_at s.last_played_at;
      completed = s.completed || playback.completed || ltb 0 incoming_count;
      progress_ms = playback.view_offset_ms;
      observed_at = observed_at;
    }

unfoldable pub synced_state : Playback → ℕ → ℕ → ℕ → WatchState
synced_state playback observed_at item source = sync_state playback observed_at (record {
  media_item_id = item;
  source_id = source;
  view_count = some_or playback.view_count 0;
  completed = playback.completed || ltb 0 (some_or playback.view_count 0);
  last_watched_at = none;
  progress_ms = none;
  last_played_at = none;
  observed_at = observed_at;
})

abbrev pub is_regression : ℕ → Option WatchState → Bool
is_regression incoming_count none = false
is_regression incoming_count (some s) = ltb incoming_count s.view_count

-- `_sync_watch_state`: whether the count fell, and the table
unfoldable pub sync_watch_state : ℕ → ℕ → Playback → ℕ → List WatchState → Bool × List WatchState
sync_watch_state item source playback observed_at states =
    if is_none playback.view_count
      && is_none playback.last_viewed_at
      && is_none playback.view_offset_ms
    then (false, states)
    else (
      is_regression (some_or playback.view_count 0) (find_first (has_state_key item source) states),
      put_state item source (sync_state playback observed_at)
          (synced_state playback observed_at item source) states,
    )
