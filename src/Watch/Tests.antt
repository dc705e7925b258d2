-- ===== src/Watch/Tests.antt =====
-- A film in both sources, its propagation, and the theorems at it.
use euvieouvi.Base.{
  ℕ, ◌≡◌, ◌≢◌, refl, String, Bool, true, false, Option, none, some, List, [], ◌∷◌, arith, count,
  any, where_, find_first, update_where, order_by, insert_by, if◌then◌else◌, ◌==◌,
}
use euvieouvi.Watch.Rows.{
  ConnectorType, plex, jellyfin, WatchState, SourceMediaRef, WatchSyncCandidate, Snapshot,
}
use euvieouvi.Watch.Decide.{
  latest_of, state_of, event_times, watched, partial_progress, completion_date, playback_date,
  watched_by_source, progress_by_source, grouped_refs, skip, complete, resume, decide_from,
  decide_both,
}
use euvieouvi.Watch.Prepare.{
  newer, target_of, decide, candidate_for, is_shared, candidate_of, add_decided, prepare_groups,
}
use euvieouvi.Watch.Record.{
  played_later, new_state, record_state, record_item, record_items, target_items, record_candidate,
  record_successes, make_unavailable, invalidate_reference,
}
use euvieouvi.Watch.Choice.{facts_of, IsJustified, decide-IsJustified, aligned-resumes}
use euvieouvi.Watch.Converge.{after_success, completion-settled}
use euvieouvi.Watch.Round.{
  done, not_found, Round, running, Tables, Work, attempt, update_progress, persist, add_success,
  add_failure, with_repairs, after_attempt, try_candidate,
}
use euvieouvi.Watch.Run.{
  show_progress, propagate, new_work, flush, move_settings, finish, conclude, run,
}
use euvieouvi.Watch.Outcome.{is_success}
use euvieouvi.Watch.Completion.{IsComplete, run-IsComplete, run-cancelled}

program : Unit {0}
unfolding latest_of state_of event_times watched partial_progress completion_date playback_date
    watched_by_source progress_by_source grouped_refs decide_from decide_both newer target_of decide
    candidate_for is_shared candidate_of add_decided prepare_groups played_later new_state
    record_state record_item record_items target_items record_candidate record_successes
    make_unavailable invalidate_reference facts_of after_success attempt update_progress persist
    add_success add_failure with_repairs after_attempt try_candidate show_progress propagate
    new_work flush move_settings finish conclude run is_success any count where_ find_first
    update_where order_by insert_by
program = tt

abbrev ref : ℕ → ℕ → String → SourceMediaRef
ref id source external_id = record {
  id = id;
  media_item_id = 1;
  source_id = source;
  external_id = external_id;
  last_seen_at = 10;
  available = true;
  unavailable_since = none;
}

abbrev state : ℕ → Bool → Option ℕ → WatchState
state source completed progress = record {
  media_item_id = 1;
  source_id = source;
  view_count = if completed then 2 else 0;
  completed = completed;
  last_watched_at = if completed then some 50 else none;
  progress_ms = progress;
  last_played_at = some 50;
  observed_at = 60;
}

abbrev snapshot_of : List WatchState → Snapshot
snapshot_of states = record {
  sources = record { plex_id = 7; jellyfin_id = 8 };
  states = states;
  events = [];
  references = ref 1 7 "p1" ∷ ref 2 8 "j1" ∷ ref 3 8 "j2" ∷ [];
}

-- Plex has seen the film to the end, Jellyfin half of it.
abbrev snapshot : Snapshot
snapshot = snapshot_of (state 7 true none ∷ state 8 false (some 30) ∷ [])

asks_jellyfin : decide snapshot none (1 ∷ []) ≡ complete jellyfin
unfolding program
asks_jellyfin = refl

apart : snapshot.sources.plex_id ≢ snapshot.sources.jellyfin_id
apart e = absurd (ground arith)

shared : is_shared snapshot (1 ∷ []) ≡ true
unfolding program
shared = refl

completion-settled_example :
    decide (after_success snapshot (1 ∷ []) jellyfin 99 none true) none (1 ∷ []) ≡ skip
completion-settled_example =
    completion-settled snapshot none none (1 ∷ []) jellyfin 99 apart shared asks_jellyfin

decide-IsJustified_example :
    IsJustified (facts_of snapshot (1 ∷ [])) (decide snapshot (some plex) (1 ∷ []))
decide-IsJustified_example = decide-IsJustified snapshot (some plex) (1 ∷ [])

-- Both sources stopped at the same position.
abbrev aligned : Snapshot
aligned = snapshot_of (state 7 false (some 30) ∷ state 8 false (some 30) ∷ [])

not_watched : (source : ConnectorType) → (facts_of aligned (1 ∷ [])).watched source ≡ none
unfolding program
not_watched plex = refl
not_watched jellyfin = refl

at_thirty : (source : ConnectorType) → (facts_of aligned (1 ∷ [])).progress source ≡ 30
unfolding program
at_thirty plex = refl
at_thirty jellyfin = refl

aligned-resumes_example :
    (decide aligned (some jellyfin) (1 ∷ []) ≡ skip)
    × (decide aligned none (1 ∷ []) ≡ resume plex 30)
aligned-resumes_example =
    aligned-resumes aligned jellyfin (1 ∷ []) 30 (not_watched plex) (not_watched jellyfin)
      (at_thirty plex) (at_thirty jellyfin) (omega arith)

abbrev candidate : WatchSyncCandidate
candidate = candidate_for snapshot (1 ∷ []) jellyfin none true

-- Of the two references of Jellyfin the first is gone.
abbrev round : Bool → Round
round cancelled = record {
  candidate = candidate;
  now = 99;
  cancelled = cancelled;
  connected = true;
  answer = λ target. if target.reference_id == 3 then not_found else done;
}

abbrev tables : Tables
tables = record {
  states = snapshot.states;
  references = snapshot.references;
  run = some (record {
    status = running;
    finished_at = none;
    scanned = 0;
    updated = 0;
    skipped = 0;
    failures = 0;
  });
  settings = record { pending = some "true"; last_success_at = none; last_full_at = none };
}

abbrev repaired_of : Option Work → Option ℕ
repaired_of none = none
repaired_of (some work) = some work.repaired

one_repair : repaired_of (run 100 1 0 true (some true) 90 (round false ∷ []) tables).1 ≡ some 1
unfolding program
one_repair = refl

run-IsComplete_example :
    (after : Tables) × (work : Work) × (run 100 1 0 true (some true) 90 (round false ∷ []) tables
      ≡ (after, some work))
    × IsComplete
        (round false ∷ [])
        tables
        after
        work
        (move_settings true (some true) 90 tables.settings)
run-IsComplete_example =
    run-IsComplete 100 1 0 true (some true) 90 (round false ∷ []) tables (refl, tt)

one_cancelled : any (λ r. r.cancelled) (round false ∷ round true ∷ []) ≡ true
unfolding program
one_cancelled = refl

run-cancelled_example :
    ((run 100 1 0 true (some true) 90 (round false ∷ round true ∷ []) tables).1 ≡ none)
    × ((run 100 1 0 true (some true) 90 (round false ∷ round true ∷ []) tables).0.settings
        ≡ tables.settings)
run-cancelled_example =
    run-cancelled 100 1 0 true (some true) 90 (round false ∷ round true ∷ []) tables one_cancelled
