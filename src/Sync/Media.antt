-- ===== src/Sync/Media.antt =====
-- What a connector delivers, as sync/orchestrator.py reads it: connectors/dtos.py, with the fields
-- that only the persistence of a single item reads left to a payload.
use Prim.Native.String.{◌++◌ as append}
use euvieouvi.Base.{
  ℕ, zero, suc, ◌/◌, ◌%◌, String, Bool, true, false, ◌||◌, Option, none, some, List, [], ◌∷◌, ◌++◌,
  str_eq, if◌then◌else◌, is_some, ◌==◌, ltb, any,
}

pub data MediaKind : Type 0 where
  movie show season episode artist album track : MediaKind

abbrev pub is_movie : MediaKind → Bool
is_movie movie = true
is_movie _ = false

abbrev pub is_episode : MediaKind → Bool
is_episode episode = true
is_episode _ = false

abbrev pub is_track : MediaKind → Bool
is_track track = true
is_track _ = false

-- `ExternalIdentifier`
pub record Identifier : Type 0 where
  pub provider : String
  pub external_id : String

pub record ExternalMediaItem : Type 0 where
  pub external_id : String
  pub kind : MediaKind
  pub file_paths : List String
  pub identifiers : List Identifier
  pub show_external_id : Option String
  pub show_identifiers : List Identifier
  pub season_external_id : Option String
  pub season_number : Option ℕ
  pub artist_external_id : Option String
  pub album_external_id : Option String
  pub metadata : String  -- every other field

pub record ExternalWatchEvent : Type 0 where
  pub media_external_id : String
  pub watched_at : ℕ
  pub completed : Bool
  pub details : String  -- every other field

pub record PageIssue : Type 0 where
  pub external_id : Option String
  pub title : Option String
  pub category : String
  pub message : String

pub record PageRequest : Type 0 where
  pub start : ℕ
  pub size : ℕ
  pub updated_since : Option ℕ

pub record HistoryCheckpoint : Type 0 where
  pub watermark_at : Option ℕ
  pub last_external_id : Option String

pub record Page (Item : Type 0) : Type 0 where
  pub items : List Item
  pub start : ℕ
  pub size : ℕ
  pub total_size : Option ℕ
  pub next_start : Option ℕ
  pub next_cursor : Option String
  pub issues : List PageIssue

module _ {Item : Type 0} where
  abbrev pub has_more : Page Item → Bool
  has_more p = is_some p.next_start || is_some p.next_cursor

-- `str` of a number
digit : ℕ → String
digit n =
    if n == 0
    then "0"
    else if n == 1
    then "1"
    else if n == 2
    then "2"
    else if n == 3
    then "3"
    else if n == 4
    then "4"
    else if n == 5
    then "5"
    else if n == 6
    then "6"
    else if n == 7
    then "7"
    else if n == 8
    then "8"
    else "9"

-- The fuel is a bound on the number of digits.
digits : ℕ → ℕ → String
unfolding digit
digits zero n = digit (n % 10)
digits (suc fuel) n =
    let leading = digits fuel (n / 10) in
    if ltb n 10 then digit n else append leading (digit (n % 10))

unfoldable pub str : ℕ → String
unfolding digits
str n = digits n n

-- `item.season_external_id or ...`: an empty text counts as missing.
abbrev pub text_or : Option String → String → String
text_or none d = d
text_or (some t) d = if str_eq t "" then d else t

abbrev pub listed : Option String → List String
listed none = []
listed (some t) = t ∷ []

-- An item, its show, its season, and a track's artist and album. An episode's DTO has a season number.
unfoldable pub external_ids_for_item : ExternalMediaItem → List String
unfolding str
external_ids_for_item item =
    item.external_id ∷ listed item.show_external_id
    ++ season_of item.show_external_id item.season_number
    ++ tracks
  where
    season_of : Option String → Option ℕ → List String
    season_of (some show_id) (some number) =
        if is_episode item.kind
        then text_or item.season_external_id (append show_id (append ":season:" (str number))) ∷ []
        else []
    season_of _ _ = []

    tracks : List String
    tracks =
        if is_track item.kind
        then listed item.artist_external_id ++ listed item.album_external_id
        else []

-- Membership in a set of ids.
abbrev pub is_in : List String → String → Bool
is_in ids id = any (str_eq id) ids
