-- ===== src/Sync/Scan.antt =====
-- `_sync_library` of sync/orchestrator.py: the two loops over a library's pages, the sweep over the
-- references that a full scan has not seen, and the end of the scan. `k` counts the rounds, and
-- the clock and the cancellation token are read once in each.
use euvieouvi.Base.{
  ℕ, zero, suc, ◌+◌, ◌*◌, String, Bool, false, ◌&&◌, not, Option, none, some, List, [], ◌∷◌, ◌++◌,
  if◌then◌else◌, some_or, ◌==◌, update_where,
}
use euvieouvi.Jobs.Row.{seconds}
use euvieouvi.Sync.Media.{
  MediaKind, movie, episode, track, ExternalMediaItem, ExternalWatchEvent, Page, PageRequest,
  HistoryCheckpoint, has_more, external_ids_for_item, is_in,
}
use euvieouvi.Sync.Rows.{
  SourceMediaRef, media, history, Summary, collecting_media, collecting_history,
}
use euvieouvi.Sync.Catalog.{Try, raised, returned, Services}
use euvieouvi.Sync.Page.{Execution, persist_media_page, persist_history_page}

pub data LibraryMediaType : Type 0 where
  movies shows artists : LibraryMediaType

pub record Library : Type 0 where
  pub id : ℕ
  pub external_id : String
  pub media_type : LibraryMediaType

-- What is outside the orchestrator. An answer `raised` is a ConnectorError.
pub record Setup (Rest : Type 0) : Type 0 where
  pub services : Services Rest
  pub get_media_page : Library → MediaKind → PageRequest → Try (Page ExternalMediaItem)
  pub get_history_page : Library → HistoryCheckpoint → PageRequest → Try (Page ExternalWatchEvent)
  pub page_size : ℕ
  pub clock : ℕ → ℕ
  pub is_cancelled : ℕ → Bool

abbrev pub full_scan_interval : ℕ
full_scan_interval = seconds (7 * 24 * 60 * 60)

abbrev pub watermark_overlap : ℕ
watermark_overlap = seconds (2 * 60)

abbrev pub media_kind : LibraryMediaType → MediaKind
media_kind movies = movie
media_kind shows = episode
media_kind artists = track

pub data Abort : Type 0 where
  cancelled : Abort
  unavailable : String → Abort

-- Why a round of a loop ends: with another one to come, the last page stored, or an exception.
pub data Turn (Rest : Type 0) : Type 0 where
  again : ℕ → List String → Execution Rest → Turn Rest
  finished : List String → Execution Rest → Turn Rest
  aborted : Abort → Execution Rest → Turn Rest

-- The loops' outcome, with the number of the next round.
pub data Collected (Rest : Type 0) : Type 0 where
  collected : ℕ → List String → Execution Rest → Collected Rest
  broken_off : Abort → Execution Rest → Collected Rest

unfoldable pub seen_ids : List ExternalMediaItem → List String
seen_ids [] = []
seen_ids (item ∷ items) = external_ids_for_item item ++ seen_ids items

-- `a or b or c`, where a zero counts as missing
unfoldable pub items_scanned : ℕ → Page ExternalMediaItem → ℕ
items_scanned start page = nonzero page.next_start (nonzero page.total_size (start + page.size))
  where
    nonzero : Option ℕ → ℕ → ℕ
    nonzero none d = d
    nonzero (some n) d = if n == 0 then d else n

-- `_mark_missing_unavailable`
unfoldable pub mark_row : ℕ → SourceMediaRef → SourceMediaRef
mark_row now r = record r {
  unavailable_since = if r.available then some now else r.unavailable_since;
  available = false;
}

abbrev pub is_missing : ℕ → List String → SourceMediaRef → Bool
is_missing library_id seen r = (r.library_id == library_id) && not (is_in seen r.external_id)

unfoldable pub mark_missing_unavailable :
    ℕ → ℕ → List String → List SourceMediaRef → List SourceMediaRef
mark_missing_unavailable now library_id seen =
    update_where (is_missing library_id seen) (mark_row now)

module _ {Rest : Type 0} where
  -- `_update_progress`
  unfoldable pub update_progress : ℕ → Summary → Execution Rest → Execution Rest
  update_progress now summary e = record e {
    run = record e.run { summary = some summary; heartbeat_at = some now };
  }

  module _ (setup : Setup Rest) (library : Library) where
    unfoldable pub media_stored :
        ℕ → ℕ → List String → Execution Rest → Try (Page ExternalMediaItem) → Turn Rest
    media_stored now start seen e (raised detail) = aborted (unavailable detail) e
    media_stored now start seen e (returned page) =
        let next_start = some_or page.next_start 0 in
        let now_seen = seen ++ seen_ids page.items in
        let stored =
          persist_media_page setup.services now page.items page.issues (items_scanned start page)
            page.total_size (if has_more page then media else history) next_start e in
        if has_more page then again next_start now_seen stored else finished now_seen stored

    unfoldable pub media_round : Option ℕ → ℕ → ℕ → List String → Execution Rest → Turn Rest
    media_round updated_since k start seen e =
        if setup.is_cancelled k
        then aborted cancelled e
        else media_stored (setup.clock k) start seen
            (update_progress (setup.clock k) (collecting_media start) e)
            (setup.get_media_page library (media_kind library.media_type)
              (record { start = start; size = setup.page_size; updated_since = updated_since }))

    -- `none`: the fuel is used up.
    unfoldable pub media_loop :
        Option ℕ → ℕ → ℕ → ℕ → List String → Execution Rest → Option (Collected Rest)
    media_loop updated_since zero k start seen e = none
    media_loop updated_since (suc fuel) k start seen e =
        elim (media_round updated_since k start seen e) [
          | again next now_seen e' ↦ media_loop updated_since fuel (suc k) next now_seen e'
          | finished now_seen e' ↦ some (collected (suc k) now_seen e')
          | aborted reason e' ↦ some (broken_off reason e')
        ]

    unfoldable pub history_stored : ℕ → Execution Rest → Try (Page ExternalWatchEvent) → Turn Rest
    history_stored now e (raised detail) = aborted (unavailable detail) e
    history_stored now e (returned page) =
        let next_start = some_or page.next_start 0 in
        let stored =
          persist_history_page setup.services now page.items page.issues next_start
            (not (has_more page)) e in
        if has_more page then again next_start [] stored else finished [] stored

    unfoldable pub history_round : HistoryCheckpoint → ℕ → ℕ → Execution Rest → Turn Rest
    history_round since k start e =
        if setup.is_cancelled k
        then aborted cancelled e
        else history_stored (setup.clock k)
            (update_progress (setup.clock k) (collecting_history start) e)
            (setup.get_history_page library since
              (record { start = start; size = setup.page_size; updated_since = none }))

    unfoldable pub history_loop :
        HistoryCheckpoint → ℕ → ℕ → ℕ → Execution Rest → Option (Collected Rest)
    history_loop since zero k start e = none
    history_loop since (suc fuel) k start e = elim (history_round since k start e) [
      | again next _ e' ↦ history_loop since fuel (suc k) next e'
      | finished _ e' ↦ some (collected (suc k) [] e')
      | aborted reason e' ↦ some (broken_off reason e')
    ]
