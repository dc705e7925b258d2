-- ===== src/Metadata/Tests.antt =====
-- A film that Plex and Jellyfin know, and the theorems at it.
use euvieouvi.Base.{
  ◌≡◌, refl, inl, inr, true, false, none, some, List, [], ◌∷◌, any, where_, delete_where,
  find_first, update_where,
}
use euvieouvi.Sync.Media.{Identifier}
use euvieouvi.Watch.Rows.{plex, jellyfin}
use euvieouvi.Metadata.Row.{
  Registry, MediaImage, cached, has_manual_match, source_of, is_known_to_plex, may_change,
  canonical_source_may_update, replace_image, put_image, sync_image, provider_of,
}
use euvieouvi.Metadata.Identifiers.{
  StoredIdentifier, is_of_item, add_value, sync_value, sync_values, sync_identifier_values,
}
use euvieouvi.Metadata.Images.{is_image_of_plex, sync_image-keeps}
use euvieouvi.Metadata.Kept.{OnlyAdds, sync_identifier_values-OnlyAdds}
use euvieouvi.Metadata.Replaced.{IsDelivered}
use euvieouvi.Metadata.Delivered.{sync_identifier_values-IsDelivered}

program : Unit {0}
unfolding has_manual_match source_of is_known_to_plex may_change canonical_source_may_update
    replace_image put_image sync_image add_value sync_value sync_values sync_identifier_values any
    where_ delete_where find_first update_where
program = tt

-- The source 1 is Plex, the source 2 is Jellyfin.
abbrev registry : Registry
registry = record {
  items = record { id = 7; manual_match_tmdb_id = none } ∷ [];
  sources =
      record { id = 1; connector_type = plex } ∷ record { id = 2; connector_type = jellyfin } ∷ [];
  references =
      record { media_item_id = 7; source_id = 1 }
      ∷ record { media_item_id = 7; source_id = 2 }
      ∷ [];
}

abbrev stored : List StoredIdentifier
stored =
    record { media_item_id = 7; provider = "tmdb"; external_id = "348" }
    ∷ record { media_item_id = 8; provider = "tmdb"; external_id = "9" }
    ∷ []

abbrev other_tmdb : Identifier
other_tmdb = record { provider = "tmdb"; external_id = "349" }

abbrev imdb : Identifier
imdb = record { provider = "imdb"; external_id = "tt0078748" }

plex_may_update : canonical_source_may_update registry 1 7 ≡ true
unfolding program
plex_may_update = refl

jellyfin_may_not_update : canonical_source_may_update registry 2 7 ≡ false
unfolding program
jellyfin_may_not_update = refl

jellyfin_adds :
    sync_identifier_values registry 2 false 7 (other_tmdb ∷ imdb ∷ []) stored
    ≡ record { media_item_id = 7; provider = "tmdb"; external_id = "348" }
      ∷ record { media_item_id = 8; provider = "tmdb"; external_id = "9" }
      ∷ record { media_item_id = 7; provider = "imdb"; external_id = "tt0078748" }
      ∷ []
unfolding program
jellyfin_adds = refl

plex_replaces :
    sync_identifier_values registry 1 false 7 (other_tmdb ∷ imdb ∷ []) stored
    ≡ record { media_item_id = 8; provider = "tmdb"; external_id = "9" }
      ∷ record { media_item_id = 7; provider = "tmdb"; external_id = "349" }
      ∷ record { media_item_id = 7; provider = "imdb"; external_id = "tt0078748" }
      ∷ []
unfolding program
plex_replaces = refl

sync_identifier_values-OnlyAdds_example :
    OnlyAdds
      (where_ (is_of_item 7) stored)
      stored
      (sync_identifier_values registry 2 false 7 (other_tmdb ∷ imdb ∷ []) stored)
sync_identifier_values-OnlyAdds_example =
    sync_identifier_values-OnlyAdds registry 2 false 7 (other_tmdb ∷ imdb ∷ []) stored
      jellyfin_may_not_update

sync_identifier_values-IsDelivered_example :
    IsDelivered 7 other_tmdb
      (sync_identifier_values registry 1 false 7 (other_tmdb ∷ imdb ∷ []) stored)
unfolding any
sync_identifier_values-IsDelivered_example =
    sync_identifier_values-IsDelivered registry 1 7 (other_tmdb ∷ imdb ∷ []) stored other_tmdb
      plex_may_update refl (inr refl, (inl refl, tt)) refl

-- A poster of Jellyfin does not replace the one of Plex.
poster : MediaImage
poster = record {
  media_item_id = 7;
  source_id = 1;
  image_type = "poster";
  provider = plex;
  source_path = "/p/1";
  local_filename = some "a.jpg";
  cache_status = cached;
}

plex_poster_stays : sync_image registry 2 7 "poster" (some "/j/1") (poster ∷ []) ≡ poster ∷ []
unfolding program poster
plex_poster_stays = refl

jellyfin_provides : provider_of registry (source_of registry 2) ≡ jellyfin
unfolding program
jellyfin_provides = refl

sync_image-keeps_example :
    where_ is_image_of_plex (sync_image registry 2 7 "poster" (some "/j/1") (poster ∷ []))
    ≡ where_ is_image_of_plex (poster ∷ [])
sync_image-keeps_example =
    sync_image-keeps registry 2 7 "poster" (some "/j/1") (poster ∷ []) jellyfin_provides
