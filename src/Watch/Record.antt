-- ===== src/Watch/Record.antt =====
-- `WatchSyncService._record_successes` and `_invalidate_reference` (sync/watch_sync.py).
use euvieouvi.Base.{
  ℕ, max, Bool, true, false, not, ◌&&◌, Option, none, some, List, [], ◌∷◌, any, update_where,
  if◌then◌else◌, ◌==◌, ltb,
}
use euvieouvi.Watch.Rows.{
  WatchState, SourceMediaRef, WatchSyncTarget, WatchSyncCandidate, put_state,
}

-- `candidate.last_played_at is not None and (state.last_played_at is None or ... > ...)`
unfoldable pub played_later : Option ℕ → Option ℕ → Option ℕ
played_later none current = current
played_later (some played) none = some played
played_later (some played) (some current) = if ltb current played then some played else some current

module _ (now : ℕ) (candidate : WatchSyncCandidate) where
  unfoldable pub new_state : ℕ → WatchState
  new_state item = record {
    media_item_id = item;
    source_id = candidate.target_source_id;
    view_count = if candidate.completed then 1 else 0;
    completed = candidate.completed;
    last_watched_at = candidate.watched_at;
    progress_ms = candidate.progress_ms;
    last_played_at = played_later candidate.last_played_at none;
    observed_at = now;
  }

  -- The update of a state that exists.
  unfoldable pub record_state : WatchState → WatchState
  record_state s =
      let played = played_later candidate.last_played_at s.last_played_at in
      if candidate.completed
      then record {
        media_item_id = s.media_item_id;
        source_id = s.source_id;
        view_count = max 1 s.view_count;
        completed = true;
        last_watched_at = candidate.watched_at;
        progress_ms = none;
        last_played_at = played;
        observed_at = now;
      }
      else if not s.completed
      then record {
        media_item_id = s.media_item_id;
        source_id = s.source_id;
        view_count = s.view_count;
        completed = s.completed;
        last_watched_at = s.last_watched_at;
        progress_ms = candidate.progress_ms;
        last_played_at = played;
        observed_at = now;
      }
      else record {
        media_item_id = s.media_item_id;
        source_id = s.source_id;
        view_count = s.view_count;
        completed = s.completed;
        last_watched_at = s.last_watched_at;
        progress_ms = s.progress_ms;
        last_played_at = played;
        observed_at = s.observed_at;
      }

  unfoldable pub record_item : List WatchState → ℕ → List WatchState
  record_item states item =
      put_state item candidate.target_source_id record_state (new_state item) states

  unfoldable pub record_items : List WatchState → List ℕ → List WatchState
  record_items states [] = states
  record_items states (item ∷ items) = record_items (record_item states item) items

-- `{target.media_item_id for target in candidate.targets}`
unfoldable pub target_items : List WatchSyncTarget → List ℕ
target_items [] = []
target_items (target ∷ targets) =
    let rest = target_items targets in
    if any (λ item. item == target.media_item_id) rest then rest else target.media_item_id ∷ rest

unfoldable pub record_candidate : ℕ → List WatchState → WatchSyncCandidate → List WatchState
record_candidate now states candidate =
    record_items now candidate states (target_items candidate.targets)

unfoldable pub record_successes : ℕ → List WatchState → List WatchSyncCandidate → List WatchState
record_successes now states [] = states
record_successes now states (candidate ∷ candidates) =
    record_successes now (record_candidate now states candidate) candidates

-- `_invalidate_reference`: whether the reference was available, and the table after it
abbrev pub is_available_ref : ℕ → SourceMediaRef → Bool
is_available_ref reference_id r = (r.id == reference_id) && r.available

unfoldable pub make_unavailable : ℕ → SourceMediaRef → SourceMediaRef
make_unavailable now r = record {
  id = r.id;
  media_item_id = r.media_item_id;
  source_id = r.source_id;
  external_id = r.external_id;
  last_seen_at = r.last_seen_at;
  available = false;
  unavailable_since = some now;
}

unfoldable pub invalidate_reference : ℕ → ℕ → List SourceMediaRef → Bool × List SourceMediaRef
invalidate_reference now reference_id references = (
  any (is_available_ref reference_id) references,
  update_where (is_available_ref reference_id) (make_unavailable now) references,
)
