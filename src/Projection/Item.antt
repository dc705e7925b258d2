-- ===== src/Projection/Item.antt =====
-- What `rebuild_catalog_projection` (sync/catalog_projection.py) reads: rows of `media_items`,
-- `source_media_refs`, `media_identifiers` and `media_file_paths`. Sets are lists, read by membership.
use euvieouvi.Base.{
  ℕ, String, Bool, true, false, ◌&&◌, Option, none, some, List, map, where_, any, find_first,
  if◌then◌else◌, ◌==◌, str_eq,
}
use euvieouvi.Sync.Media.{MediaKind, movie, show, season, episode, artist, album, track}

abbrev pub kind_code : MediaKind → ℕ
kind_code movie = 0
kind_code show = 1
kind_code season = 2
kind_code episode = 3
kind_code artist = 4
kind_code album = 5
kind_code track = 6

abbrev pub same_kind : MediaKind → MediaKind → Bool
same_kind k j = kind_code k == kind_code j

-- `_CATALOG_KINDS`
abbrev pub in_catalog : MediaKind → Bool
in_catalog season = false
in_catalog _ = true

pub record MediaItem : Type 0 where
  pub id : ℕ
  pub kind : MediaKind
  pub title : String
  pub year : Option ℕ
  pub parent_id : Option ℕ
  pub manual_match_tmdb_id : Option String

pub record Reference : Type 0 where
  pub media_item_id : ℕ
  pub source_id : ℕ
  pub available : Bool

-- A row of the query that joins the file paths with the available references.
pub record FilePath : Type 0 where
  pub media_item_id : ℕ
  pub path_key : String

-- A row of `media_identifiers` of one of the stable providers.
pub record MediaIdentifier : Type 0 where
  pub media_item_id : ℕ
  pub provider : String
  pub external_id : String

pub record Catalog : Type 0 where
  pub items : List MediaItem
  pub references : List Reference
  pub paths : List FilePath
  pub identifiers : List MediaIdentifier

-- `item_by_id.get(media_id)`
unfoldable pub item_by_id : Catalog → ℕ → Option MediaItem
item_by_id c media_id = find_first (λ row. row.id == media_id) c.items

-- `source_ids_by_item.get(media_id, set())`
unfoldable pub source_ids_of : Catalog → ℕ → List ℕ
source_ids_of c media_id =
    map (λ r. r.source_id) (where_ (λ r. r.media_item_id == media_id) c.references)

-- `available_sources.get(media_id, set())`
unfoldable pub available_sources_of : Catalog → ℕ → List ℕ
available_sources_of c media_id =
    map (λ r. r.source_id) (where_ (λ r. r.media_item_id == media_id && r.available) c.references)

-- `paths_by_item[media_id]`, empty where the key is missing
unfoldable pub paths_of : Catalog → ℕ → List String
paths_of c media_id = map (λ p. p.path_key) (where_ (λ p. p.media_item_id == media_id) c.paths)

-- The manual match of an item, where it is truthy.
unfoldable pub manual_id_of : Catalog → ℕ → Option String
manual_id_of c media_id = elim (item_by_id c media_id) [
  | none ↦ none
  | some row ↦ elim (row.manual_match_tmdb_id) [
    | none ↦ none
    | some tmdb_id ↦ if str_eq tmdb_id "" then none else some tmdb_id
  ]
]

-- `bool(left & right)`
module _ {A : Type 0} (same : A → A → Bool) where
  unfoldable pub meets : List A → List A → Bool
  meets left right = any (λ x. any (same x) right) left
