-- ===== src/Metadata/Row.antt =====
-- The rows that `_canonical_source_may_update`, `_sync_identifier_values` and `_sync_image` of
-- sync/persistence.py read and write, the first of these, and the third.
use euvieouvi.Base.{
  ℕ, String, Bool, true, false, not, ◌&&◌, ◌||◌, Option, none, some, List, [], ◌∷◌, ◌++◌,
  find_first, any, update_where, if◌then◌else◌, ◌==◌, str_eq,
}
use euvieouvi.Watch.Rows.{ConnectorType, plex, jellyfin}

pub record CatalogItem : Type 0 where
  pub id : ℕ
  pub manual_match_tmdb_id : Option String

pub record Source : Type 0 where
  pub id : ℕ
  pub connector_type : ConnectorType

pub record ItemReference : Type 0 where
  pub media_item_id : ℕ
  pub source_id : ℕ

pub data CacheStatus : Type 0 where
  pending cached : CacheStatus

pub record MediaImage : Type 0 where
  pub media_item_id : ℕ
  pub source_id : ℕ
  pub image_type : String
  pub provider : ConnectorType
  pub source_path : String
  pub local_filename : Option String
  pub cache_status : CacheStatus

pub record Registry : Type 0 where
  pub items : List CatalogItem
  pub sources : List Source
  pub references : List ItemReference

abbrev pub is_plex : ConnectorType → Bool
is_plex plex = true
is_plex jellyfin = false

abbrev pub truthy : Option String → Bool
truthy none = false
truthy (some text) = not (str_eq text "")

-- `media is not None and media.manual_match_tmdb_id`
abbrev pub is_matched : Option CatalogItem → Bool
is_matched none = false
is_matched (some item) = truthy item.manual_match_tmdb_id

module _ (registry : Registry) where
  unfoldable pub has_manual_match : ℕ → Bool
  has_manual_match media_item_id =
      is_matched (find_first (λ item. item.id == media_item_id) registry.items)

  unfoldable pub source_of : ℕ → Option Source
  source_of source_id = find_first (λ s. s.id == source_id) registry.sources

  abbrev pub is_plex_source : Option Source → Bool
  is_plex_source none = false
  is_plex_source (some s) = is_plex s.connector_type

  -- Whether Plex has a reference to the item.
  unfoldable pub is_known_to_plex : ℕ → Bool
  is_known_to_plex media_item_id =
      any (λ r. (r.media_item_id == media_item_id) && is_plex_source (source_of r.source_id))
        registry.references

  unfoldable pub may_change : Option Source → ℕ → Bool
  may_change none media_item_id = true
  may_change (some source) media_item_id =
      is_plex source.connector_type || not (is_known_to_plex media_item_id)

  -- `_canonical_source_may_update`. A new item has no id and no match yet: no row has the id 0.
  unfoldable pub canonical_source_may_update : ℕ → ℕ → Bool
  canonical_source_may_update source_id media_item_id =
      if has_manual_match media_item_id
      then false
      else may_change (source_of source_id) media_item_id

  -- The provider of an image of a source that is not found is Plex.
  abbrev pub provider_of : Option Source → ConnectorType
  provider_of none = plex
  provider_of (some s) = s.connector_type

  abbrev pub has_type : ℕ → String → MediaImage → Bool
  has_type media_item_id image_type i =
      (i.media_item_id == media_item_id) && str_eq i.image_type image_type

  abbrev pub same_connector : ConnectorType → ConnectorType → Bool
  same_connector plex plex = true
  same_connector jellyfin jellyfin = true
  same_connector _ _ = false

  unfoldable pub replace_image : ℕ → ConnectorType → String → MediaImage → MediaImage
  replace_image source_id provider source_path i =
      if is_plex i.provider && not (is_plex provider)
      then i
      else if not (str_eq i.source_path source_path) || not (same_connector i.provider provider)
      then record i {
        source_id = source_id;
        provider = provider;
        source_path = source_path;
        local_filename = none;
        cache_status = pending;
      }
      else i

  unfoldable pub put_image :
      ℕ → ConnectorType → ℕ → String → String → List MediaImage → List MediaImage
  put_image source_id provider media_item_id image_type source_path images =
      if any (has_type media_item_id image_type) images
      then update_where (has_type media_item_id image_type)
          (replace_image source_id provider source_path) images
      else images
        ++ record {
          media_item_id = media_item_id;
          source_id = source_id;
          image_type = image_type;
          provider = provider;
          source_path = source_path;
          local_filename = none;
          cache_status = pending;
        }
          ∷ []

  -- `_sync_image`
  unfoldable pub sync_image : ℕ → ℕ → String → Option String → List MediaImage → List MediaImage
  sync_image source_id media_item_id image_type none images = images
  sync_image source_id media_item_id image_type (some source_path) images =
      if has_manual_match media_item_id
      then images
      else put_image source_id (provider_of (source_of source_id)) media_item_id image_type
          source_path images
