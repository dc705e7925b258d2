-- ===== src/Sync/Tests.antt =====
-- A synchronization of two pages on a small catalogue, and the theorems at it.
use euvieouvi.Base.{
  ℕ, ◌≡◌, refl, subst, String, Bool, true, false, Option, none, some, List, [], ◌∷◌, arith, ◌==◌,
  map, any, update_where, ◌&&◌, ◌||◌, not,
}
use euvieouvi.Jobs.Row.{is_active}
use euvieouvi.Sync.Media.{
  ExternalMediaItem, ExternalWatchEvent, Page, PageRequest, HistoryCheckpoint, MediaKind,
  external_ids_for_item, str, is_in,
}
use euvieouvi.Sync.Rows.{SyncCheckpoint, SourceMediaRef, media}
use euvieouvi.Sync.Catalog.{returned}
use euvieouvi.Sync.Persist.{
  persist_media_with_repair, reconcile_identity_once, reconcile_persisted_item, reconcile_stored,
  persist_again, same_key,
}
use euvieouvi.Sync.Checkpoint.{set_checkpoint, resume_position, complete_checkpoint}
use euvieouvi.Sync.Page.{
  Execution, media_issue, media_issues, classified, event_counted, item_read, recorded, media_item,
  media_items, persist_media_page, history_event, history_events, history_issues,
  persist_history_page,
}
use euvieouvi.Sync.Scan.{
  Library, Collected, broken_off, collected, seen_ids, items_scanned, mark_missing_unavailable,
  mark_row, update_progress, media_stored, media_round, media_loop, history_stored, history_round,
  history_loop,
}
use euvieouvi.Sync.Library.{
  plan, full_scan_is_due, finish_library, sweep, close_library, history_part, after_media,
  sync_library,
}
use euvieouvi.Sync.Run.{Executed, executed, execute_slots, finish_run, conclude}
use euvieouvi.Sync.Ending.{IsAdvancing}
use euvieouvi.Sync.Accounting.{IsAccounted, persist_media_page-IsAccounted}
use euvieouvi.Sync.Sweep.{
  mark_missing_unavailable-available, IsUnswept, resumed_full_scan-IsUnswept,
}
use euvieouvi.Sync.Closing.{IsEnded, execution-IsClosed}
use euvieouvi.Sync.Reading.{page_of, media_loop-ReadsAll}
use euvieouvi.Sync.Scan.{Setup}
use euvieouvi.Sync.Samples.{
  json, strokes, film, issue, services, media_pages, no_history, setup, library, reference, begun,
  slots, state,
}

program : Unit {0}
unfolding external_ids_for_item str same_key reconcile_identity_once reconcile_persisted_item
    reconcile_stored persist_again persist_media_with_repair set_checkpoint resume_position
    complete_checkpoint media_issue media_issues classified event_counted item_read recorded
    media_item media_items persist_media_page history_event history_events history_issues
    persist_history_page seen_ids items_scanned mark_missing_unavailable mark_row update_progress
    media_stored media_round media_loop history_stored history_round history_loop plan
    full_scan_is_due finish_library sweep close_library history_part after_media sync_library
    execute_slots finish_run conclude update_where any strokes
program = tt

abbrev left : Option (Executed (List String)) → List (Bool × ℕ × ℕ)
left (some (executed s)) =
    map (λ slot. (is_active slot.detail.status, slot.detail.items_read, slot.detail.items_failed))
      s.slots
left _ = []

-- Three films and an issue were read, of which two failed.
reads_everything : left (execute_slots (setup (λ k. false)) 4 0 slots state) ≡ (false, 4, 2) ∷ []
unfolding program
reads_everything = refl

mark_missing_unavailable-available_example :
    let refs : List SourceMediaRef = reference "a" ∷ reference "gone" ∷ [] in
    let swept : List SourceMediaRef = mark_missing_unavailable 9 5 ("a" ∷ []) refs in
    (map (λ r. r.available) swept
      ≡ map (λ r. r.available && (not (r.library_id == 5) || is_in ("a" ∷ []) r.external_id)) refs)
    × (mark_missing_unavailable 20 5 ("a" ∷ []) swept ≡ swept)
mark_missing_unavailable-available_example =
    mark_missing_unavailable-available 9 20 5 ("a" ∷ []) (reference "a" ∷ reference "gone" ∷ [])

-- One of the two is left.
sweeps_one :
    map
      (λ r. r.available)
      (mark_missing_unavailable 9 5 ("a" ∷ []) (reference "a" ∷ reference "gone" ∷ []))
    ≡ true ∷ false ∷ []
unfolding program
sweeps_one = refl

persist_media_page-IsAccounted_example : IsAccounted _ 3 begun (
    persist_media_page services 1000
      (film "a" ∷ film "bad" ∷ [])
      (issue ∷ [])
      2
      (some 3)
      media
      2
      begun)
persist_media_page-IsAccounted_example =
    persist_media_page-IsAccounted services 1000 (film "a" ∷ film "bad" ∷ []) (issue ∷ []) 2
      (some 3) media 2 begun

abbrev never : ℕ → Bool
never k = false

media_pages_advance :
    (library : Library) (kind : MediaKind) (request : PageRequest) (page : Page ExternalMediaItem)
    → (setup never).get_media_page library kind request ≡ returned page
    → IsAdvancing _ 2 request.start page
media_pages_advance library kind request page e =
    let same : media_pages request.start ≡ page = cc e in
    subst (IsAdvancing _ 2 request.start) same
      (record { by_number = ground arith; later = λ n more. ground arith })

history_pages_advance :
    (library : Library) (since : HistoryCheckpoint) (request : PageRequest)
    (page : Page ExternalWatchEvent)
    → (setup never).get_history_page library since request ≡ returned page
    → IsAdvancing _ 2 request.start page
history_pages_advance library since request page e =
    let same : no_history request.start ≡ page = cc e in
    subst (IsAdvancing _ 2 request.start) same
      (record { by_number = refl; later = λ n more. ground arith })

execution-IsClosed_example :
    (x : Executed (List String)) × (execute_slots (setup never) 3 0 slots state ≡ some x)
    × IsEnded false 2000 x (conclude false 2000 "ConnectorError" x)
execution-IsClosed_example =
    execution-IsClosed (setup never) 2 3 0 2000 false "ConnectorError" slots state
      media_pages_advance history_pages_advance (omega arith)

-- The run is cancelled before its second page.
abbrev in_round_one : ℕ → Bool
in_round_one k = k == 1

abbrev state_at_stop : Option (Collected (List String)) → Execution (List String)
state_at_stop (some (broken_off reason e)) = e
state_at_stop _ = begun

abbrev stopped_at : Execution (List String)
stopped_at = state_at_stop (media_loop (setup in_round_one) library none 3 0 0 [] begun)

-- A first scan that was broken off after two films.
abbrev half_way : SyncCheckpoint
half_way = record {
  strategy = "incremental_v2";
  cursor = some "II";
  watermark_at = none;
  last_full_scan_at = none;
  last_external_id = none;
  last_successful_run_id = none;
  updated_at = 1000;
}

half_way_at : resume_position json (some half_way) ≡ (media, 2)
unfolding program
half_way_at = refl

half_way_due : full_scan_is_due 1000 (some half_way) ≡ true
unfolding program
half_way_due = refl

abbrev begun_half_way : Execution (List String)
begun_half_way = record begun { checkpoint = some half_way }

abbrev scanned : Option (Collected (List String)) → Execution (List String)
scanned (some (collected k seen e)) = e
scanned _ = begun

abbrev half_scanned : Execution (List String)
half_scanned = scanned (sync_library (setup never) library 3 0 begun_half_way)

half_way_scanned :
    sync_library (setup never) library 3 0 begun_half_way ≡ some (collected 2 [] half_scanned)
unfolding program
half_way_scanned = refl

resumed_full_scan-IsUnswept_example :
    IsUnswept (setup never) library 3 0 2 1 [] begun_half_way half_scanned
resumed_full_scan-IsUnswept_example =
    resumed_full_scan-IsUnswept (setup never) library 3 0 2 1 [] begun_half_way half_scanned
      half_way_at half_way_due half_way_scanned

abbrev films : List ExternalMediaItem
films = film "a" ∷ film "bad" ∷ film "b" ∷ []

abbrev paged_setup : Setup (List String)
paged_setup = record (setup never) {
  get_media_page = λ library kind request. returned (page_of films request);
}

media_loop-ReadsAll_example :
    (k : ℕ) × (e' : Execution (List String)) × (media_loop paged_setup library none 4 0 0 [] begun
      ≡ some (collected k (seen_ids films) e'))
    × IsAccounted _ 3 begun e'
media_loop-ReadsAll_example =
    media_loop-ReadsAll paged_setup library films (λ k. refl) (omega arith) (λ kind request. refl)
      none 4 0 0 [] begun (omega arith) (omega arith)
