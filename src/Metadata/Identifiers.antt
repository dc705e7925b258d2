-- ===== src/Metadata/Identifiers.antt =====
-- `_sync_identifier_values` of sync/persistence.py. A row of `media_identifiers` is unique for its item,
-- provider and identifier, and is known by these.
use euvieouvi.Base.{
  ℕ, String, Bool, not, ◌&&◌, ◌||◌, List, [], ◌∷◌, ◌++◌, any, where_, delete_where, if◌then◌else◌,
  ◌==◌, str_eq,
}
use euvieouvi.Sync.Media.{Identifier}
use euvieouvi.Metadata.Row.{Registry, has_manual_match, canonical_source_may_update}

pub record StoredIdentifier : Type 0 where
  pub media_item_id : ℕ
  pub provider : String
  pub external_id : String

abbrev pub is_stable : String → Bool
is_stable provider =
    str_eq provider "tmdb"
    || str_eq provider "imdb"
    || str_eq provider "tvdb"
    || str_eq provider "musicbrainz"

-- `conflicting`: another identifier of the same provider
abbrev pub conflicts : Identifier → StoredIdentifier → Bool
conflicts value row =
    str_eq row.provider value.provider && not (str_eq row.external_id value.external_id)

abbrev pub agrees : Identifier → StoredIdentifier → Bool
agrees value row = str_eq row.provider value.provider && str_eq row.external_id value.external_id

abbrev pub same_row : StoredIdentifier → StoredIdentifier → Bool
same_row a b =
    (a.media_item_id == b.media_item_id)
    && str_eq a.provider b.provider
    && str_eq a.external_id b.external_id

abbrev pub new_identifier : ℕ → Identifier → StoredIdentifier
new_identifier media_item_id value = record {
  media_item_id = media_item_id;
  provider = value.provider;
  external_id = value.external_id;
}

-- `existing` are the rows of the item as they were before the loop.
module _ (may_update : Bool) (media_item_id : ℕ) (existing : List StoredIdentifier) where
  abbrev pub is_removed : Identifier → StoredIdentifier → Bool
  is_removed value row = conflicts value row && any (same_row row) existing

  unfoldable pub add_value : Identifier → List StoredIdentifier → List StoredIdentifier
  add_value value rows =
      if any (agrees value) existing then rows else rows ++ new_identifier media_item_id value ∷ []

  unfoldable pub sync_value : Identifier → List StoredIdentifier → List StoredIdentifier
  sync_value value rows =
      let replaces = any (conflicts value) existing && is_stable value.provider in
      if replaces && not may_update
      then rows
      else if replaces
      then add_value value (delete_where (is_removed value) rows)
      else add_value value rows

  unfoldable pub sync_values : List Identifier → List StoredIdentifier → List StoredIdentifier
  sync_values [] rows = rows
  sync_values (value ∷ values) rows = sync_values values (sync_value value rows)

abbrev pub is_of_item : ℕ → StoredIdentifier → Bool
is_of_item media_item_id row = row.media_item_id == media_item_id

-- A set of identifiers that was synchronized before in the same session is passed by: `is_synced`.
unfoldable pub sync_identifier_values :
    Registry → ℕ → Bool → ℕ → List Identifier → List StoredIdentifier → List StoredIdentifier
sync_identifier_values registry source_id is_synced media_item_id values rows =
    if has_manual_match registry media_item_id || is_synced
    then rows
    else sync_values (canonical_source_may_update registry source_id media_item_id) media_item_id
        (where_ (is_of_item media_item_id) rows) values rows
