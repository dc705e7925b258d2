-- ===== src/History/Tests.antt =====
-- An event that arrives twice, a server that forgets, a season, and the theorems at them.
use euvieouvi.Base.{
  ltb, ℕ, ◌≡◌, refl, Bool, true, false, ◌&&◌, ◌||◌, Option, none, some, List, [], ◌∷◌, count, any,
  where_, find_first, update_where, is_some, some_or, if◌then◌else◌, ◌==◌,
}
use euvieouvi.Tasks.Queue.{enqueue, next_id, new_task}
use euvieouvi.Watch.Rows.{WatchState, put_state}
use euvieouvi.Watch.Decide.{latest_of}
use euvieouvi.Watch.View.{state_at}
use euvieouvi.Watch.Growth.{Grows}
use euvieouvi.History.Row.{ExternalEvent, Tables, ends_with, next_event_id}
use euvieouvi.History.State.{
  apply_event, state_of_event, apply_event_to_watch_state, Playback, sync_state, synced_state,
  sync_watch_state,
}
use euvieouvi.History.Event.{
  Persisted, unknown_media, changed_media, answered, Setup, refresh, new_event, watch_update,
  insert_event, insert_unless_known, refresh_named, persist_found, persist_for, persist_referenced,
  persist_event,
}
use euvieouvi.History.Growth.{
  views_of, StatesGrow, persist_event-StatesGrow, sync_watch_state-Grows,
}
use euvieouvi.History.Containers.{
  Playable, least_count, aggregate_completion, derive, derived_state, child_of, extend_group,
  child_at, add_child, group_children, add_top, group_tops, set_derived,
  rebuild_container_watch_states,
}
use euvieouvi.History.Derived.{IsDerived}
use euvieouvi.History.Collected.{is_selected, children_where}
use euvieouvi.History.Shows.{deciding, rebuilt-IsDerived}

program : Unit {0}
unfolding ends_with next_event_id apply_event state_of_event apply_event_to_watch_state put_state
    sync_state synced_state sync_watch_state refresh new_event watch_update insert_event
    insert_unless_known refresh_named persist_found persist_for persist_referenced persist_event
    enqueue next_id new_task least_count aggregate_completion derive derived_state child_of
    extend_group child_at add_child group_children add_top group_tops set_derived
    rebuild_container_watch_states latest_of count any where_ find_first update_where
program = tt

abbrev setup : Setup
setup = record {
  source_id = 7;
  event_dedup_key = λ event. event.media_external_id;
  payload_key = λ payload. payload.external_id;
  now = 5000;
  utc_now = 5000;
}

abbrev event : ExternalEvent
event = record {
  media_external_id = "m1";
  library_external_id = none;
  watched_at = 1000;
  completed = true;
  source_event_id = some "h1";
  progress_ms = none;
  duration_ms = none;
  view_number = some 3;
  playback_user = none;
}

abbrev tables : Tables
tables = record {
  references =
      record {
        id = 1;
        media_item_id = 11;
        source_id = 7;
        external_id = "m1";
        last_seen_at = 10;
        available = true;
        unavailable_since = none;
      }
      ∷ [];
  events = [];
  states = [];
  tasks = [];
}

abbrev after : Persisted → Tables
after (unknown_media t) = tables
after (changed_media t) = tables
after (answered inserted t) = t

abbrev inserted : Persisted → Option Bool
inserted (answered b t) = some b
inserted _ = none

abbrev views : Option WatchState → Option ℕ
views none = none
views (some s) = some s.view_count

first_is_stored : inserted (persist_event setup "webhook" event tables) ≡ some true
unfolding program
first_is_stored = refl

views_of_item :
    views (state_at (after (persist_event setup "webhook" event tables)).states 11 7) ≡ some 3
unfolding program
views_of_item = refl

persist_event-StatesGrow_example :
    StatesGrow setup "webhook" event tables (persist_event setup "webhook" event tables)
persist_event-StatesGrow_example = persist_event-StatesGrow setup "webhook" event tables

abbrev state : ℕ → ℕ → WatchState
state item view_count = record {
  media_item_id = item;
  source_id = 7;
  view_count = view_count;
  completed = true;
  last_watched_at = some 900;
  progress_ms = none;
  last_played_at = some 900;
  observed_at = 950;
}

-- The server has forgotten two of three views.
abbrev forgetful : Playback
forgetful = record {
  view_count = some 1;
  last_viewed_at = none;
  view_offset_ms = none;
  completed = false;
}

is_reported : (sync_watch_state 11 7 forgetful 2000 (state 11 3 ∷ [])).0 ≡ true
unfolding program
is_reported = refl

sync_watch_state-Grows_example :
    Grows
      (state_at (state 11 3 ∷ []) 11 7)
      (state_at (sync_watch_state 11 7 forgetful 2000 (state 11 3 ∷ [])).1 11 7)
    × ((sync_watch_state 11 7 forgetful 2000 (state 11 3 ∷ [])).0 ≡ (
        (is_some forgetful.view_count
          || is_some forgetful.last_viewed_at
          || is_some forgetful.view_offset_ms)
        && ltb (some_or forgetful.view_count 0) (views_of (state_at (state 11 3 ∷ []) 11 7))))
sync_watch_state-Grows_example = sync_watch_state-Grows 11 7 forgetful 2000 (state 11 3 ∷ []) 11 7

-- Season 50 of show 60 has the episodes 1 and 2, of which both are watched.
abbrev episodes : List Playable
episodes = record { id = 1; parent_id = some 50 } ∷ record { id = 2; parent_id = some 50 } ∷ []

abbrev parent_of : ℕ → Option ℕ
parent_of container = if container == 50 then some 60 else none

abbrev watched : List WatchState
watched = state 1 3 ∷ state 2 2 ∷ []

views_of_show :
    views (state_at (rebuild_container_watch_states 7 2000 parent_of episodes [] watched) 60 7)
    ≡ some 2
unfolding program
views_of_show = refl

rebuilt-IsDerived_example :
    IsDerived
      (deciding
        (children_where 7 [] watched (λ p. is_selected (λ key. key == 60) (parent_of p)) episodes)
        (children_where 7 [] watched (λ p. p == 60) episodes))
      (state_at watched 60 7)
      (state_at (rebuild_container_watch_states 7 2000 parent_of episodes [] watched) 60 7)
rebuilt-IsDerived_example = rebuilt-IsDerived 7 2000 parent_of episodes [] watched 60
