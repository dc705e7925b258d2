-- ===== src/Watch/Decide.antt =====
-- `WatchSyncService._prepare` (sync/watch_sync.py): what is known of an item in a source, and what a group of
-- items asks for.
use euvieouvi.Base.{
  ℕ, max, Bool, true, false, not, ◌&&◌, ◌||◌, Option, none, some, List, [], ◌∷◌, map, where_,
  find_first, any, if◌then◌else◌, ◌==◌, ltb, is_some, is_none, some_or,
}
use euvieouvi.Watch.Rows.{
  ConnectorType, plex, jellyfin, other, WatchState, SourceMediaRef, Snapshot, has_state_key,
  has_event_key,
}

abbrev pub later : Option ℕ → Option ℕ → Option ℕ
later none b = b
later (some a) none = some a
later (some a) (some b) = some (max a b)

-- `max(times, default=None)`
unfoldable pub latest_of : List (Option ℕ) → Option ℕ
latest_of [] = none
latest_of (time ∷ times) = later time (latest_of times)

-- `a or b`
abbrev pub or_else : Option ℕ → Option ℕ → Option ℕ
or_else none b = b
or_else (some a) b = some a

-- The time that `remember` keeps: of the events only where there is no state.
abbrev pub watched_from : Option WatchState → Option ℕ → Option ℕ
watched_from none events = events
watched_from (some s) events =
    if s.completed then some (some_or s.last_watched_at s.observed_at) else none

-- The position of a state that is not completed.
abbrev pub progress_from : Option WatchState → ℕ
progress_from none = 0
progress_from (some s) = if s.completed then 0 else some_or s.progress_ms 0

module _ (snapshot : Snapshot) where
  unfoldable pub state_of : ℕ → ℕ → Option WatchState
  state_of item source = find_first (has_state_key item source) snapshot.states

  unfoldable pub event_times : ℕ → ℕ → List (Option ℕ)
  event_times item source =
      map (λ e. some e.watched_at) (where_ (has_event_key item source) snapshot.events)

  -- `watched.get((item, source))`
  unfoldable pub watched : ℕ → ℕ → Option ℕ
  watched item source = watched_from (state_of item source) (latest_of (event_times item source))

  -- `partial_progress.get((item, source), 0)`
  unfoldable pub partial_progress : ℕ → ℕ → ℕ
  partial_progress item source = progress_from (state_of item source)

  -- `completion_dates.get((item, source))`
  unfoldable pub completion_date : ℕ → ℕ → Option ℕ
  completion_date item source =
      later
        (elim (state_of item source) [
          | none ↦ none
          | some s ↦ if s.completed then s.last_watched_at else none
        ])
        (latest_of (event_times item source))

  -- `playback_dates.get((item, source))`
  unfoldable pub playback_date : ℕ → ℕ → Option ℕ
  playback_date item source =
      let played : Option ℕ = elim (state_of item source) [
        | none ↦ none
        | some s ↦ or_else s.last_played_at s.last_watched_at
      ] in
      if any (has_event_key item source) snapshot.events
      then later played (completion_date item source)
      else played

  -- `watched_by_source`, `progress_by_source` and the dates, over the items of a group
  unfoldable pub watched_by_source : List ℕ → ℕ → Option ℕ
  watched_by_source group source = latest_of (map (λ item. watched item source) group)

  unfoldable pub progress_by_source : List ℕ → ℕ → ℕ
  progress_by_source [] source = 0
  progress_by_source (item ∷ group) source =
      max (partial_progress item source) (progress_by_source group source)

  -- `grouped_refs.get(source, [])`: only available references are read.
  unfoldable pub grouped_refs : List ℕ → ℕ → List SourceMediaRef
  grouped_refs group source =
      where_
        (λ r. (r.source_id == source) && r.available && any (λ item. item == r.media_item_id) group)
        snapshot.references

-- What a group asks for: nothing, or that a source is told a completion or a position.
pub data Decision : Type 0 where
  skip : Decision
  complete : ConnectorType → Decision
  resume : ConnectorType → ℕ → Decision

abbrev pub is_jellyfin : ConnectorType → Bool
is_jellyfin plex = false
is_jellyfin jellyfin = true

-- The branch with a direction: `source_watched` and `source_progress` are of the requested source.
unfoldable pub decide_from : ConnectorType → Option ℕ → Option ℕ → ℕ → ℕ → Decision
decide_from source source_watched target_watched source_progress target_progress =
    if is_some source_watched && is_none target_watched
    then complete (other source)
    else if is_some source_watched
        || is_some target_watched
        || (source_progress == 0)
        || (source_progress == target_progress)
    then skip
    else if is_jellyfin source && ltb 0 target_progress
    then skip
    else resume (other source) source_progress

-- The branch without one.
unfoldable pub decide_both : Option ℕ → Option ℕ → ℕ → ℕ → Decision
decide_both plex_watched jellyfin_watched plex_progress jellyfin_progress =
    if is_some plex_watched && is_none jellyfin_watched
    then complete jellyfin
    else if is_none plex_watched && is_some jellyfin_watched
    then complete plex
    else if is_some plex_watched || is_some jellyfin_watched
    then skip
    else if ltb 0 plex_progress && not (plex_progress == jellyfin_progress)
    then resume jellyfin plex_progress
    else if ltb 0 jellyfin_progress
    then resume plex jellyfin_progress
    else skip
