-- ===== src/Watch/Prepare.antt =====
-- `WatchSyncService._prepare` (sync/watch_sync.py): the loop over the groups, which makes the candidates.
use euvieouvi.Base.{
  ℕ, ◌+◌, Bool, true, false, ◌&&◌, ◌||◌, Option, none, some, List, [], ◌∷◌, map, order_by,
  if◌then◌else◌, ◌==◌, ltb, leb,
}
use euvieouvi.Watch.Rows.{
  ConnectorType, plex, jellyfin, other, id_of, SourceMediaRef, WatchSyncTarget, WatchSyncCandidate,
  Snapshot,
}
use euvieouvi.Watch.Decide.{
  latest_of, completion_date, playback_date, watched_by_source, progress_by_source, grouped_refs,
  Decision, skip, complete, resume, decide_from, decide_both,
}

-- The sort of the references of a target, in reverse by the time and the id
unfoldable pub newer : SourceMediaRef → SourceMediaRef → Bool
newer a b =
    ltb b.last_seen_at a.last_seen_at || ((a.last_seen_at == b.last_seen_at) && leb b.id a.id)

unfoldable pub target_of : SourceMediaRef → WatchSyncTarget
target_of r = record {
  media_item_id = r.media_item_id;
  reference_id = r.id;
  external_id = r.external_id;
  last_seen_at = r.last_seen_at;
}

abbrev pub is_nonempty : List SourceMediaRef → Bool
is_nonempty [] = false
is_nonempty (r ∷ rs) = true

module _ (snapshot : Snapshot) where
  unfoldable pub decide : Option ConnectorType → List ℕ → Decision
  decide none group =
      let plex_id = id_of snapshot.sources plex in
      let jellyfin_id = id_of snapshot.sources jellyfin in
      decide_both (watched_by_source snapshot group plex_id)
        (watched_by_source snapshot group jellyfin_id) (progress_by_source snapshot group plex_id)
        (progress_by_source snapshot group jellyfin_id)
  decide (some source) group =
      let source_id = id_of snapshot.sources source in
      let target_id = id_of snapshot.sources (other source) in
      decide_from source (watched_by_source snapshot group source_id)
        (watched_by_source snapshot group target_id) (progress_by_source snapshot group source_id)
        (progress_by_source snapshot group target_id)

  unfoldable pub candidate_for : List ℕ → ConnectorType → Option ℕ → Bool → WatchSyncCandidate
  candidate_for group target progress completed =
      let target_id = id_of snapshot.sources target in
      let source_id = id_of snapshot.sources (other target) in
      record {
        target_source_id = target_id;
        targets = map target_of (order_by newer (grouped_refs snapshot group target_id));
        watched_at =
            if completed
            then latest_of (map (λ item. completion_date snapshot item source_id) group)
            else none;
        progress_ms = progress;
        completed = completed;
        last_played_at = latest_of (map (λ item. playback_date snapshot item source_id) group);
      }

  -- `source_ids <= grouped_refs.keys()`
  unfoldable pub is_shared : List ℕ → Bool
  is_shared group =
      is_nonempty (grouped_refs snapshot group (id_of snapshot.sources plex))
      && is_nonempty (grouped_refs snapshot group (id_of snapshot.sources jellyfin))

  unfoldable pub candidate_of : List ℕ → Decision → Option WatchSyncCandidate
  candidate_of group skip = none
  candidate_of group (complete target) = some (candidate_for group target none true)
  candidate_of group (resume target progress) =
      some (candidate_for group target (some progress) false)

pub record Prepared : Type 0 where
  pub candidates : List WatchSyncCandidate
  pub scanned : ℕ
  pub skipped : ℕ

unfoldable pub add_decided : Option WatchSyncCandidate → Prepared → Prepared
add_decided none p = record {
  candidates = p.candidates;
  scanned = p.scanned + 1;
  skipped = p.skipped + 1;
}
add_decided (some candidate) p = record {
  candidates = candidate ∷ p.candidates;
  scanned = p.scanned + 1;
  skipped = p.skipped;
}

-- The loop; the candidates stand in the order of their groups.
unfoldable pub prepare_groups : Snapshot → Option ConnectorType → List (List ℕ) → Prepared
prepare_groups snapshot source_type [] = record { candidates = []; scanned = 0; skipped = 0 }
prepare_groups snapshot source_type (group ∷ groups) =
    let rest = prepare_groups snapshot source_type groups in
    if is_shared snapshot group
    then add_decided (candidate_of snapshot group (decide snapshot source_type group)) rest
    else rest
