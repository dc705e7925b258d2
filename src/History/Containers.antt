-- ===== src/History/Containers.antt =====
-- The watch states of seasons, shows, albums and artists, which follow from those of the episodes and tracks:
-- `rebuild_container_watch_states`, `_set_derived_watch_state` and `_aggregate_completion` of
-- sync/persistence.py.
use euvieouvi.Base.{
  ℕ, Option, none, some, List, [], ◌∷◌, ◌++◌, map, where_, any, count, find_first, if◌then◌else◌,
  ◌==◌, ltb, min,
}
use euvieouvi.Watch.Rows.{WatchState, has_state_key, put_state}
use euvieouvi.Watch.Decide.{later, latest_of}
use euvieouvi.History.Row.{WatchEvent, counts_for}

-- An available episode or track: its row, and the counts that stand for it.
pub record Playable : Type 0 where
  pub id : ℕ
  pub parent_id : Option ℕ

pub record Child : Type 0 where
  pub id : ℕ
  pub view_count : ℕ
  pub last_watched : Option ℕ

pub record Aggregate : Type 0 where
  pub view_count : ℕ
  pub last_watched : Option ℕ

unfoldable pub least_count : Child → List Child → ℕ
least_count child [] = child.view_count
least_count child (next ∷ children) = min child.view_count (least_count next children)

-- `_aggregate_completion`
unfoldable pub aggregate_completion : List Child → Aggregate
aggregate_completion [] = record { view_count = 0; last_watched = none }
aggregate_completion (child ∷ children) = record {
  view_count =
      if any (λ c. c.view_count == 0) (child ∷ children) then 0 else least_count child children;
  last_watched = latest_of (map (λ c. c.last_watched) (child ∷ children));
}

-- `_set_derived_watch_state`
unfoldable pub derive : Aggregate → ℕ → WatchState → WatchState
derive a observed_at s = record s {
  view_count = a.view_count;
  completed = ltb 0 a.view_count;
  last_watched_at = a.last_watched;
  last_played_at = later s.last_played_at a.last_watched;
  progress_ms = none;
  observed_at = observed_at;
}

unfoldable pub derived_state : Aggregate → ℕ → ℕ → ℕ → WatchState
derived_state a observed_at item source = derive a observed_at (record {
  media_item_id = item;
  source_id = source;
  view_count = a.view_count;
  completed = ltb 0 a.view_count;
  last_watched_at = none;
  progress_ms = none;
  last_played_at = none;
  observed_at = observed_at;
})

-- What counts for a playable item: its state, and its events only where it has none.
unfoldable pub child_of : ℕ → List WatchEvent → ℕ → Option WatchState → Child
child_of source events item none = record {
  id = item;
  view_count = count (counts_for item source) events;
  last_watched = latest_of (map (λ e. some e.watched_at) (where_ (counts_for item source) events));
}
child_of source events item (some s) = record {
  id = item;
  view_count = if s.completed then s.view_count else 0;
  last_watched = if s.completed then s.last_watched_at else none;
}

-- `groups.setdefault(key, []).extend(children)`
unfoldable pub extend_group : ℕ → List Child → List (ℕ × List Child) → List (ℕ × List Child)
extend_group key children [] = (key, children) ∷ []
extend_group key children ((other, members) ∷ groups) =
    let rest = extend_group key children groups in
    if key == other then (other, members ++ children) ∷ groups else (other, members) ∷ rest

module _ (source : ℕ) (events : List WatchEvent) (states : List WatchState) where
  -- The child that a playable item is to its parent.
  unfoldable pub child_at : ℕ → Child
  child_at item = child_of source events item (find_first (has_state_key item source) states)

  unfoldable pub add_child : Option ℕ → ℕ → List (ℕ × List Child) → List (ℕ × List Child)
  add_child none item groups = groups
  add_child (some parent) item groups = extend_group parent (child_at item ∷ []) groups

  -- `grouped`
  unfoldable pub group_children : List Playable → List (ℕ × List Child) → List (ℕ × List Child)
  group_children [] groups = groups
  group_children (row ∷ rows) groups = group_children rows (add_child row.parent_id row.id groups)

unfoldable pub add_top : Option ℕ → List Child → List (ℕ × List Child) → List (ℕ × List Child)
add_top none children tops = tops
add_top (some top) children tops = extend_group top children tops

-- `top_grouped`: the children of the containers that a container holds
unfoldable pub group_tops :
    (ℕ → Option ℕ) → List (ℕ × List Child) → List (ℕ × List Child) → List (ℕ × List Child)
group_tops parent_of [] tops = tops
group_tops parent_of ((parent, children) ∷ groups) tops =
    group_tops parent_of groups (add_top (parent_of parent) children tops)

module _ (source observed_at : ℕ) where
  unfoldable pub set_derived : List (ℕ × List Child) → List WatchState → List WatchState
  set_derived [] states = states
  set_derived ((container, children) ∷ groups) states =
      let a = aggregate_completion children in
      set_derived groups (
        put_state container source (derive a observed_at)
          (derived_state a observed_at container source) states)

  -- `parent_of` is the parent of a container that exists and has one.
  unfoldable pub rebuild_container_watch_states :
      (ℕ → Option ℕ) → List Playable → List WatchEvent → List WatchState → List WatchState
  rebuild_container_watch_states parent_of playable events states =
      let grouped = group_children source events states playable [] in
      set_derived (group_tops parent_of grouped []) (set_derived grouped states)
