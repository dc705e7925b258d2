-- ===== src/Projection/Tests.antt =====
-- A small catalogue, its groups, and the theorems at it.
use euvieouvi.Base.{
  ℕ, ◌≡◌, refl, String, Bool, true, none, some, List, [], ◌∷◌, All, count, any, where_, find_first,
  order_by, insert_by, ◌==◌,
}
use euvieouvi.Sync.Media.{movie}
use euvieouvi.Projection.Item.{
  Catalog, MediaItem, Reference, MediaIdentifier, item_by_id, source_ids_of, available_sources_of,
  paths_of, manual_id_of, meets,
}
use euvieouvi.Projection.Safe.{
  safe_from, safe_group, add_manual_id, manual_ids, known_paths, some_apart, safe_identity_group,
}
use euvieouvi.Projection.Groups.{
  add_to, catalog_ids, identity_members, fallback_key, fallback_members, safe_pairs,
  candidate_groups, split_groups, joined_pairs, catalog_groups, precedes, canonical_id,
}
use euvieouvi.Projection.Partition.{occurrences, IsEntry, catalog_groups-IsPartition}
use euvieouvi.Union.Forest.{set, halve}
use euvieouvi.Union.Join.{find, hang_greater, join, join_all}

program : Unit {0}
unfolding item_by_id source_ids_of available_sources_of paths_of manual_id_of meets safe_from
    safe_group add_manual_id manual_ids known_paths some_apart safe_identity_group add_to
    catalog_ids identity_members fallback_key fallback_members safe_pairs candidate_groups
    split_groups joined_pairs catalog_groups precedes canonical_id find hang_greater join join_all
    set halve where_ find_first order_by insert_by any
program = tt

film : ℕ → String → MediaItem
film id title = record {
  id = id;
  kind = movie;
  title = title;
  year = some 1979;
  parent_id = none;
  manual_match_tmdb_id = none;
}

seen_in : ℕ → ℕ → Reference
seen_in item source = record { media_item_id = item; source_id = source; available = true }

tmdb : ℕ → String → MediaIdentifier
tmdb item id = record { media_item_id = item; provider = "tmdb"; external_id = id }

-- 1 and 2 share an identifier; 3 and 4 have a title in common but are in one source.
abbrev catalog : Catalog
catalog = record {
  items = film 1 "Alien" ∷ film 2 "Alien (1979)" ∷ film 3 "Stalker" ∷ film 4 "Stalker" ∷ [];
  references = seen_in 1 1 ∷ seen_in 2 2 ∷ seen_in 3 1 ∷ seen_in 4 1 ∷ [];
  paths = [];
  identifiers = tmdb 1 "348" ∷ tmdb 2 "348" ∷ [];
}

groups_of_catalog :
    catalog_groups (λ title. title) catalog ≡ some ((1 ∷ 2 ∷ []) ∷ (3 ∷ []) ∷ (4 ∷ []) ∷ [])
unfolding program film seen_in tmdb
groups_of_catalog = refl

catalog_groups-IsPartition_example :
    (groups : List (List ℕ)) × (catalog_groups (λ title. title) catalog ≡ some groups)
    × ((id : ℕ) → occurrences id groups ≡ count (λ m. m == id) (catalog_ids catalog))
    × All (IsEntry (λ title. title) catalog) groups
catalog_groups-IsPartition_example = catalog_groups-IsPartition (λ title. title) catalog

abbrev in_plex : ℕ → Bool
in_plex id = id == 2

canonical_of_group : canonical_id catalog in_plex 1 (2 ∷ []) ≡ 2
unfolding program film
canonical_of_group = refl
