-- ===== src/Sync/Samples.antt =====
-- A library of two pages, on services that store every film but one, for the tests.
use Prim.Native.String.{len, ◌++◌}
use text.Mathlib.TextPositions.{len-append}
use euvieouvi.Sync.Checkpoint.{IsReadBack}
use euvieouvi.Base.{
  zero, suc, refl, ap, arith, ◌∙◌, ◌≡◌, ℕ, String, Bool, true, false, none, some, List, [], ◌∷◌,
  ◌==◌, if◌then◌else◌, str_eq, ◌+◌,
}
use euvieouvi.Jobs.Row.{running, queued}
use euvieouvi.Sync.Media.{ExternalMediaItem, ExternalWatchEvent, Page, PageIssue, movie}
use euvieouvi.Sync.Rows.{Json, pos, SyncRun, SyncRunLibrary, SourceMediaRef}
use euvieouvi.Sync.Catalog.{Services, raised, returned, inserted}
use euvieouvi.Sync.Persist.{World}
use euvieouvi.Sync.Page.{Execution}
use euvieouvi.Sync.Scan.{Setup, Library, movies}
use euvieouvi.Sync.Run.{Slot, RunState}

abbrev pub film : String → ExternalMediaItem
film id = record {
  external_id = id;
  kind = movie;
  file_paths = [];
  identifiers = [];
  show_external_id = none;
  show_identifiers = [];
  season_external_id = none;
  season_number = none;
  artist_external_id = none;
  album_external_id = none;
  metadata = "";
}

abbrev pub issue : PageIssue
issue = record {
  external_id = some "x";
  title = none;
  category = "invalid_item";
  message = "no title";
}

-- Every film is new but "bad", which is refused.
-- A number is written in strokes.
unfoldable pub strokes : ℕ → String
strokes zero = ""
strokes (suc n) = "I" ++ strokes n

len-strokes : (n : ℕ) → len (strokes n) ≡ n
unfolding strokes
len-strokes zero = refl
len-strokes (suc n) = len-append "I" (strokes n) ∙ omega (arith, len-strokes n)

abbrev pub json : Json
json = record {
  dumps = λ stage start. strokes start;
  loads = λ text. some ("media", pos (len text));
}

pub json-IsReadBack : IsReadBack json
json-IsReadBack n = ap (λ m. some ("media", pos m)) (len-strokes n)

abbrev pub services : Services (List String)
services = record {
  json = json;
  persist_media = λ now item c.
      if any_eq item.external_id
      then raised "constraint"
      else returned (
        record {
          classification = inserted;
          media_item_id = 7;
          view_count_regression = false;
          event_inserted = false;
        },
        record c { rest = item.external_id ∷ c.rest },
      );
  persist_event = λ event c. returned (true, c);
  reconcile_physical_item = λ id c. returned (0, c);
  reconcile_matching_items = λ kind ids c. returned (0, c);
  rebuild_container_watch_states = λ now c. c;
}
  where
    any_eq : String → Bool
    any_eq id = str_eq id "bad"

abbrev pub media_pages : ℕ → Page ExternalMediaItem
media_pages start =
    if start == 0
    then record {
      items = film "a" ∷ film "bad" ∷ [];
      start = start;
      size = 2;
      total_size = some 3;
      next_start = some 2;
      next_cursor = none;
      issues = issue ∷ [];
    }
    else record {
      items = film "b" ∷ [];
      start = start;
      size = 1;
      total_size = some 3;
      next_start = none;
      next_cursor = none;
      issues = [];
    }

abbrev pub no_history : ℕ → Page ExternalWatchEvent
no_history start = record {
  items = [];
  start = start;
  size = 0;
  total_size = none;
  next_start = none;
  next_cursor = none;
  issues = [];
}

-- The token is set from the given round on.
abbrev pub setup : (ℕ → Bool) → Setup (List String)
setup is_cancelled = record {
  services = services;
  get_media_page = λ library kind request. returned (media_pages request.start);
  get_history_page = λ library since request. returned (no_history request.start);
  page_size = 2;
  clock = λ k. 1000 + k;
  is_cancelled = is_cancelled;
}

abbrev pub library : Library
library = record { id = 5; external_id = "lib"; media_type = movies }

abbrev pub run : SyncRun
run = record {
  id = 1;
  source_id = 1;
  status = running;
  started_at = some 1000;
  finished_at = none;
  heartbeat_at = none;
  items_read = 0;
  items_inserted = 0;
  items_updated = 0;
  items_unchanged = 0;
  items_failed = 0;
  events_inserted = 0;
  summary = none;
}

abbrev pub detail : SyncRunLibrary
detail = record {
  sync_run_id = 1;
  library_id = 5;
  status = queued;
  started_at = none;
  finished_at = none;
  items_read = 0;
  items_inserted = 0;
  items_updated = 0;
  items_failed = 0;
  items_scanned = 0;
  items_total = none;
  message = none;
}

abbrev pub reference : String → SourceMediaRef
reference id = record {
  library_id = 5;
  external_id = id;
  available = true;
  unavailable_since = none;
}

abbrev pub world : World (List String)
world = record {
  catalog = record { references = reference "a" ∷ reference "gone" ∷ []; rest = [] };
  reconciled = [];
}

abbrev pub begun : Execution (List String)
begun = record { run = run; detail = detail; checkpoint = none; errors = []; world = world }

abbrev pub slots : List Slot
slots = record { library = library; detail = detail; checkpoint = none } ∷ []

abbrev pub state : RunState (List String)
state = record { run = run; slots = []; errors = []; world = world }
