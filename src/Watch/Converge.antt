-- ===== src/Watch/Converge.antt =====
-- A completion that was propagated is not propagated again: `_record_successes` and the decision of
-- `_prepare` (sync/watch_sync.py).
use euvieouvi.Base.{
  ℕ, ◌<◌, ◌≡◌, ◌≢◌, ◌⊎◌, inl, inr, refl, ap, subst, sym, ◌∙◌, Bool, true, ◌&&◌, Option, none, some,
  List, [], ◌∷◌, arith, map, any, order_by, All, All-map, All-tabulate, All-where_, All-order_by,
  count, count-order_by, ◌==◌, is_some, Bool-cases, Option-cases,
}
use mathlib.Core.Path.{fun_ext}
use euvieouvi.Watch.Rows.{
  ConnectorType, plex, jellyfin, other, id_of, WatchState, SourceMediaRef, WatchSyncTarget,
  Snapshot,
}
use euvieouvi.Watch.Decide.{
  latest_of, state_of, event_times, watched, watched_from, watched_by_source, grouped_refs, skip,
  complete, decide_from, decide_both,
}
use euvieouvi.Watch.Prepare.{newer, target_of, is_nonempty, decide, candidate_for, is_shared}
use euvieouvi.Watch.Record.{target_items, record_candidate}
use euvieouvi.Watch.Persisted.{is_completed, record_items-is_completed, record_items-elsewhere}

any-at :
    (f : ℕ → Bool) (items : List ℕ) (item : ℕ)
    → any (λ i. i == item) items ≡ true
    → f item ≡ true
    → any f items ≡ true
unfolding any
any-at f [] item m e = absurd (ground arith)
any-at f (i ∷ items) item m e = elim (Bool-cases (i == item)) [
  | inl same ↦ let same_item : i ≡ item = ground arith in ground (arith, ap f same_item, e)
  | inr differs ↦ ground (arith, any-at f items item (ground arith) e)
]

latest_of-is_some :
    (f : ℕ → Option ℕ) (items : List ℕ)
    → is_some (latest_of (map f items)) ≡ any (λ i. is_some (f i)) items
unfolding latest_of any
latest_of-is_some f [] = refl
latest_of-is_some f (i ∷ items) =
    let rest = latest_of-is_some f items in
    elim (Option-cases (f i)) [
      | inl e ↦ rw e rest
      | inr (a, e) ↦ rw e (elim (Option-cases (latest_of (map f items))) [
        | inl k ↦ rw k refl
        | inr (b, k) ↦ rw k refl
      ])
    ]

target_items-first :
    (t : WatchSyncTarget) (targets : List WatchSyncTarget)
    → any (λ i. i == t.media_item_id) (target_items (t ∷ targets)) ≡ true
unfolding target_items any
target_items-first t targets =
    elim (Bool-cases (any (λ i. i == t.media_item_id) (target_items targets))) [
      | inl known ↦ rw known known
      | inr new ↦ rw new (ground arith)
    ]

-- An item of the group that is among the targets.
record HasTarget (group : List ℕ) (targets : List WatchSyncTarget) : Type 0 where
  item : ℕ
  in_targets : any (λ i. i == item) (target_items targets) ≡ true
  in_group : any (λ i. i == item) group ≡ true

none_left : (refs : List SourceMediaRef) → is_nonempty refs ≡ true → 0 < count (λ _. true) refs
unfolding count
none_left [] e = absurd (ground arith)
none_left (r ∷ refs) e = omega arith

sorted_refs-HasTarget :
    (group : List ℕ) (sorted : List SourceMediaRef)
    → 0 < count (λ _. true) sorted
    → All (λ r. any (λ i. i == r.media_item_id) group ≡ true) sorted
    → HasTarget group (map target_of sorted)
unfolding count target_of
sorted_refs-HasTarget group [] some_ref h = absurd (omega (arith, some_ref))
sorted_refs-HasTarget group (r ∷ sorted) some_ref h = record {
  item = r.media_item_id;
  in_targets = target_items-first (target_of r) (map target_of sorted);
  in_group = h.0;
}

watched_from-is_some :
    (state : Option WatchState) (events : Option ℕ)
    → is_completed state ≡ true
    → is_some (watched_from state events) ≡ true
watched_from-is_some none events e = absurd (ground arith)
watched_from-is_some (some s) events e = ground arith

module _ (snapshot : Snapshot) (group : List ℕ) (target : ConnectorType) where
  targets-HasTarget :
      is_nonempty (grouped_refs snapshot group (id_of snapshot.sources target)) ≡ true
      → HasTarget group (candidate_for snapshot group target none true).targets
  unfolding grouped_refs candidate_for
  targets-HasTarget e =
      let target_id = id_of snapshot.sources target in
      let refs = grouped_refs snapshot group target_id in
      let listed =
        All-where_ (λ _. Unit {0})
          (λ r.
            (r.source_id == target_id)
            && r.available
            && any (λ item. item == r.media_item_id) group)
          snapshot.references (All-tabulate snapshot.references (λ _. tt)) in
      sorted_refs-HasTarget group (order_by newer refs)
        (subst (λ n. 0 < n) (sym (count-order_by newer (λ _. true) refs)) (none_left refs e))
        (All-order_by newer _ refs (All-map refs (λ r h. ground (arith, h.1)) listed))

  -- The snapshot of the next run, where nothing else happened.
  unfoldable pub after_success : ℕ → Option ℕ → Bool → Snapshot
  after_success now progress completed = record {
    sources = snapshot.sources;
    states =
        record_candidate now snapshot.states
          (candidate_for snapshot group target progress completed);
    events = snapshot.events;
    references = snapshot.references;
  }

  completed_after :
      (now item : ℕ)
      → any (λ i. i == item) (target_items (candidate_for snapshot group target none true).targets)
        ≡ true
      → is_some (watched (after_success now none true) item (id_of snapshot.sources target)) ≡ true
  unfolding watched state_of after_success record_candidate candidate_for
  completed_after now item m =
      let candidate = candidate_for snapshot group target none true in
      watched_from-is_some
        (state_of (after_success now none true) item (id_of snapshot.sources target))
        (latest_of (event_times (after_success now none true) item (id_of snapshot.sources target)))
        (record_items-is_completed now candidate (target_items candidate.targets) snapshot.states
          item refl m)

  target_watched_after :
      (now : ℕ)
      → is_nonempty (grouped_refs snapshot group (id_of snapshot.sources target)) ≡ true
      → is_some
          (watched_by_source (after_success now none true) group (id_of snapshot.sources target))
        ≡ true
  unfolding watched_by_source
  target_watched_after now e =
      let h = targets-HasTarget e in
      let seen = completed_after now h.item h.in_targets in
      latest_of-is_some
        (λ i. watched (after_success now none true) i (id_of snapshot.sources target)) group
      ∙ any-at _ group h.item h.in_group seen

  source_watched_after :
      (now source : ℕ) (progress : Option ℕ) (completed : Bool)
      → source ≢ id_of snapshot.sources target
      → watched_by_source (after_success now progress completed) group source
        ≡ watched_by_source snapshot group source
  unfolding watched_by_source watched state_of after_success record_candidate candidate_for
      event_times
  source_watched_after now source progress completed apart =
      ap (λ f. latest_of (map f group)) (fun_ext (λ item. same item))
    where
      same :
          (item : ℕ)
          → watched (after_success now progress completed) item source
            ≡ watched snapshot item source
      same item =
          let candidate = candidate_for snapshot group target progress completed in
          ap (λ state. watched_from state (latest_of (event_times snapshot item source)))
            (record_items-elsewhere now candidate (target_items candidate.targets) snapshot.states
              item source apart)

decide_from-settled :
    (source : ConnectorType) (a b : Option ℕ) (p q : ℕ)
    → is_some a ≡ true
    → is_some b ≡ true
    → decide_from source a b p q ≡ skip
unfolding decide_from
decide_from-settled source a b p q ha hb = ground arith

decide_both-settled :
    (a b : Option ℕ) (p q : ℕ) → is_some a ≡ true → is_some b ≡ true → decide_both a b p q ≡ skip
unfolding decide_both
decide_both-settled a b p q ha hb = ground arith

-- Whoever asks for a completion is watched itself.
decide_from-source :
    (source target : ConnectorType) (a b : Option ℕ) (p q : ℕ)
    → decide_from source a b p q ≡ complete target
    → (other source ≡ target) × (is_some a ≡ true)
unfolding decide_from
decide_from-source source target a b p q e = ground arith

decide_both-source :
    (target : ConnectorType) (a b : Option ℕ) (p q : ℕ)
    → decide_both a b p q ≡ complete target
    → ((target ≡ jellyfin) × (is_some a ≡ true)) ⊎ ((target ≡ plex) × (is_some b ≡ true))
unfolding decide_both
decide_both-source target a b p q e = ground arith

decide-settled :
    (snapshot : Snapshot) (source_type : Option ConnectorType) (group : List ℕ)
    → is_some (watched_by_source snapshot group (id_of snapshot.sources plex)) ≡ true
    → is_some (watched_by_source snapshot group (id_of snapshot.sources jellyfin)) ≡ true
    → decide snapshot source_type group ≡ skip
unfolding decide
decide-settled snapshot none group p j = decide_both-settled _ _ _ _ p j
decide-settled snapshot (some plex) group p j = decide_from-settled plex _ _ _ _ p j
decide-settled snapshot (some jellyfin) group p j = decide_from-settled jellyfin _ _ _ _ j p

decide-source :
    (snapshot : Snapshot) (source_type : Option ConnectorType) (group : List ℕ)
    (target : ConnectorType)
    → decide snapshot source_type group ≡ complete target
    → is_some (watched_by_source snapshot group (id_of snapshot.sources (other target))) ≡ true
unfolding decide
decide-source snapshot none group plex e = elim (decide_both-source plex _ _ _ _ e) [
  | inl (k, _) ↦ absurd (ground arith)
  | inr (_, w) ↦ w
]
decide-source snapshot none group jellyfin e = elim (decide_both-source jellyfin _ _ _ _ e) [
  | inl (_, w) ↦ w
  | inr (k, _) ↦ absurd (ground arith)
]
decide-source snapshot (some plex) group plex e =
    absurd (ground (arith, decide_from-source plex plex _ _ _ _ e))
decide-source snapshot (some plex) group jellyfin e = (decide_from-source plex jellyfin _ _ _ _ e).1
decide-source snapshot (some jellyfin) group plex e = (decide_from-source jellyfin plex _ _ _ _ e).1
decide-source snapshot (some jellyfin) group jellyfin e =
    absurd (ground (arith, decide_from-source jellyfin jellyfin _ _ _ _ e))

-- A completion converges in one run: where a group with references in both sources asks for a
-- completion, and that was recorded as a success, the same group asks for nothing any more, in either
-- direction or in both, while nothing else has changed.
pub completion-settled :
    (snapshot : Snapshot) (source_type next_type : Option ConnectorType) (group : List ℕ)
    (target : ConnectorType) (now : ℕ)
    → snapshot.sources.plex_id ≢ snapshot.sources.jellyfin_id
    → is_shared snapshot group ≡ true
    → decide snapshot source_type group ≡ complete target
    → decide (after_success snapshot group target now none true) next_type group ≡ skip
unfolding after_success is_shared
completion-settled snapshot source_type next_type group plex now apart shared asks =
    decide-settled (after_success snapshot group plex now none true) next_type group
      (target_watched_after snapshot group plex now (ground arith))
      (ap is_some (
          source_watched_after snapshot group plex now (id_of snapshot.sources jellyfin) none true
            (λ e. apart (sym e)))
        ∙ decide-source snapshot source_type group plex asks)
completion-settled snapshot source_type next_type group jellyfin now apart shared asks =
    decide-settled (after_success snapshot group jellyfin now none true) next_type group
      (ap is_some (
          source_watched_after snapshot group jellyfin now (id_of snapshot.sources plex) none true
            apart)
        ∙ decide-source snapshot source_type group jellyfin asks)
      (target_watched_after snapshot group jellyfin now (ground arith))
