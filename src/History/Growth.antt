-- ===== src/History/Growth.antt =====
-- What playback takes back of the watch states: nothing (sync/persistence.py).
use euvieouvi.Base.{
  ℕ, String, ◌≡◌, inl, inr, refl, Bool, true, false, not, ◌&&◌, ◌||◌, Option, none, some, List,
  arith, find_first, any, count, max, if◌then◌else◌, ◌==◌, ltb, is_none, is_some, some_or,
  Bool-cases,
}
use euvieouvi.Watch.Rows.{WatchState, SourceMediaRef}
use euvieouvi.Watch.Decide.{later}
use euvieouvi.Watch.View.{state_at}
use euvieouvi.Watch.Growth.{IsNotAfter, IsLater, Grows, Grows-refl, put_state-Grows}
use euvieouvi.History.Row.{
  ExternalEvent, WatchEvent, Tables, counts_for, has_dedup_key, has_event_id, has_identity,
  is_nearby,
}
use euvieouvi.History.State.{
  apply_event, state_of_event, apply_event_to_watch_state, Playback, sync_state, synced_state,
  is_regression, sync_watch_state,
}
use euvieouvi.History.Event.{
  Persisted, unknown_media, changed_media, answered, Setup, insert_event, insert_unless_known,
  refresh_named, persist_found, persist_for, persist_referenced, persist_event,
}

later-right : (a b : Option ℕ) → IsNotAfter b (later a b)
later-right none none = tt
later-right none (some b) = omega arith
later-right (some a) none = tt
later-right (some a) (some b) = omega arith

later-left : (a b : Option ℕ) → IsNotAfter a (later a b)
later-left none b = tt
later-left (some a) none = omega arith
later-left (some a) (some b) = omega arith

apply_event-IsLater :
    (event : ExternalEvent) (event_count : ℕ) (s : WatchState)
    → IsLater s (apply_event event event_count s)
unfolding apply_event
apply_event-IsLater event event_count s = record {
  completed = inr refl;
  views = omega arith;
  played = later-left s.last_played_at (some event.watched_at);
}

sync_state-IsLater :
    (playback : Playback) (observed_at : ℕ) (s : WatchState)
    → IsLater s (sync_state playback observed_at s)
unfolding sync_state
sync_state-IsLater playback observed_at s = record {
  completed = ground arith;
  views = omega arith;
  played = later-right playback.last_viewed_at s.last_played_at;
}

apply_event_to_watch_state-Grows :
    (changed target : ℕ) (event : ExternalEvent) (events : List WatchEvent)
    (states : List WatchState) (item source : ℕ)
    → Grows
        (state_at states item source)
        (state_at (apply_event_to_watch_state changed target event events states) item source)
unfolding apply_event_to_watch_state apply_event state_of_event
apply_event_to_watch_state-Grows changed target event events states item source =
    let event_count =
      max (some_or event.view_number 0) (count (counts_for changed target) events) in
    put_state-Grows changed target (apply_event event event_count)
      (state_of_event event event_count changed target) states item source (λ s. refl) refl
      (apply_event-IsLater event event_count)

-- The views of a state, and none where there is no state.
abbrev pub views_of : Option WatchState → ℕ
views_of none = 0
views_of (some s) = s.view_count

regression_reported :
    (incoming_count : ℕ) (s : Option WatchState)
    → is_regression incoming_count s ≡ ltb incoming_count (views_of s)
regression_reported incoming_count none = ground arith
regression_reported incoming_count (some s) = refl

-- A synchronized item never takes a playback back: for every item and source, a completed state stays
-- completed, the count of views does not fall and the last playback does not move back, also where the
-- server reports fewer views. A regression is reported exactly when the item says something of its
-- playback and its count, a missing one read as 0, is below the views of the state that was there.
pub sync_watch_state-Grows :
    (changed target : ℕ) (playback : Playback) (observed_at : ℕ) (states : List WatchState)
    (item source : ℕ)
    → Grows
        (state_at states item source)
        (state_at (sync_watch_state changed target playback observed_at states).1 item source)
      × ((sync_watch_state changed target playback observed_at states).0 ≡ (
          (is_some playback.view_count
            || is_some playback.last_viewed_at
            || is_some playback.view_offset_ms)
          && ltb (some_or playback.view_count 0) (views_of (state_at states changed target))))
unfolding sync_watch_state sync_state synced_state
sync_watch_state-Grows changed target playback observed_at states item source =
    elim (Bool-cases (
      is_none playback.view_count
      && is_none playback.last_viewed_at
      && is_none playback.view_offset_ms)) [
        | inl e ↦ rw e (Grows-refl (state_at states item source), ground arith)
        | inr e ↦ rw e (
          put_state-Grows changed target (sync_state playback observed_at)
              (synced_state playback observed_at changed target) states item source (λ s. refl) refl
              (sync_state-IsLater playback observed_at),
          ground (
            arith,
            regression_reported (some_or playback.view_count 0) (state_at states changed target),
          ),
        )
      ]

module _ (setup : Setup) (origin : String) (event : ExternalEvent) where
  -- After an answer or an error no watch state is taken back.
  abbrev pub StatesGrow : Tables → Persisted → Type 0
  StatesGrow t (unknown_media u) =
      (item source : ℕ) → Grows (state_at t.states item source) (state_at u.states item source)
  StatesGrow t (changed_media u) =
      (item source : ℕ) → Grows (state_at t.states item source) (state_at u.states item source)
  StatesGrow t (answered inserted u) =
      (item source : ℕ) → Grows (state_at t.states item source) (state_at u.states item source)

  inserted-StatesGrow :
      (item : ℕ) (t : Tables) → StatesGrow t (insert_unless_known setup origin event item t)
  unfolding insert_unless_known insert_event
  inserted-StatesGrow item t =
      elim (Bool-cases
        (any (has_dedup_key setup.source_id (setup.event_dedup_key event)) t.events)) [
          | inl known ↦ rw known (λ i s. Grows-refl (state_at t.states i s))
          | inr new ↦ elim (Bool-cases (any (is_nearby item event.watched_at) t.events)) [
            | inl near ↦ rw (new, near) (λ i s. Grows-refl (state_at t.states i s))
            | inr far ↦
                rw (new, far)
                  (λ i s.
                    apply_event_to_watch_state-Grows item setup.source_id event _ t.states i s)
          ]
        ]

  found-StatesGrow :
      (item : ℕ) (event_id : String) (found : Option WatchEvent) (t : Tables)
      → StatesGrow t (persist_found setup origin event item event_id found t)
  unfolding persist_found refresh_named
  found-StatesGrow item event_id none t = inserted-StatesGrow item t
  found-StatesGrow item event_id (some e) t = elim (Bool-cases (e.media_item_id == item)) [
    | inl own ↦ rw own (λ i s. Grows-refl (state_at t.states i s))
    | inr differs ↦ rw differs (λ i s. Grows-refl (state_at t.states i s))
  ]

  for-StatesGrow :
      (item : ℕ) (name : Option String) (t : Tables)
      → StatesGrow t (persist_for setup origin event item name t)
  unfolding persist_for
  for-StatesGrow item none t = inserted-StatesGrow item t
  for-StatesGrow item (some event_id) t =
      found-StatesGrow item event_id (find_first (has_event_id setup.source_id event_id) t.events) t

  referenced-StatesGrow :
      (reference : Option SourceMediaRef) (t : Tables)
      → StatesGrow t (persist_referenced setup origin event reference t)
  unfolding persist_referenced
  referenced-StatesGrow none t = λ i s. Grows-refl (state_at t.states i s)
  referenced-StatesGrow (some r) t = for-StatesGrow r.media_item_id event.source_event_id t

  either-StatesGrow :
      (b : Bool) (t : Tables) (p : Persisted)
      → StatesGrow t p
      → StatesGrow t (if not b then answered false t else p)
  either-StatesGrow true t p h = h
  either-StatesGrow false t p h = λ i s. Grows-refl (state_at t.states i s)

  -- An event takes nothing back from any watch state: completed states stay completed, no count of views
  -- falls, and no last playback moves back.
  pub persist_event-StatesGrow : (t : Tables) → StatesGrow t (persist_event setup origin event t)
  unfolding persist_event
  persist_event-StatesGrow t = either-StatesGrow event.completed t _ (
      referenced-StatesGrow
        (find_first (has_identity setup.source_id event.media_external_id) t.references) t)
