-- ===== src/Metadata/Images.antt =====
-- What `_sync_image` of sync/persistence.py keeps.
use euvieouvi.Base.{
  ℕ, ◌≡◌, ◌⊎◌, inl, inr, refl, String, Bool, false, not, ◌||◌, Option, none, some, List, [], ◌∷◌,
  ◌++◌, any, where_, update_where, str_eq, Bool-cases,
}
use euvieouvi.Watch.Rows.{jellyfin}
use euvieouvi.Metadata.Row.{
  Registry, MediaImage, is_plex, has_manual_match, source_of, provider_of, has_type, same_connector,
  replace_image, put_image, sync_image,
}

abbrev pub is_image_of_plex : MediaImage → Bool
is_image_of_plex i = is_plex i.provider

module _ (registry : Registry) (source_id : ℕ) (source_path : String) where
  replaced :
      (i : MediaImage)
      → (replace_image registry source_id jellyfin source_path i ≡ i)
        ⊎ ((is_image_of_plex i ≡ false)
            × (is_image_of_plex (replace_image registry source_id jellyfin source_path i) ≡ false))
  unfolding replace_image
  replaced i = elim (Bool-cases (is_image_of_plex i)) [
    | inl e ↦ inl (rw e refl)
    | inr e ↦
        let changes =
          not (str_eq i.source_path source_path)
          || not (same_connector registry i.provider jellyfin) in
        elim (Bool-cases changes) [ inl k ↦ inr (e, rw (e, k) refl) | inr k ↦ inl (rw (e, k) refl) ]
  ]

  where_update_where :
      (p : MediaImage → Bool) (images : List MediaImage)
      → where_ is_image_of_plex
          (update_where p (replace_image registry source_id jellyfin source_path) images)
        ≡ where_ is_image_of_plex images
  unfolding where_ update_where
  where_update_where p [] = refl
  where_update_where p (i ∷ images) =
      let rest = where_update_where p images in
      elim (Bool-cases (p i)) [
        | inl e ↦ elim (replaced i) [
          | inl same ↦ rw (e, same, rest) refl
          | inr (old, new) ↦ rw (e, old, new) rest
        ]
        | inr e ↦ rw (e, rest) refl
      ]

where_-snoc :
    (p : MediaImage → Bool) (images : List MediaImage) (i : MediaImage)
    → p i ≡ false
    → where_ p (images ++ i ∷ []) ≡ where_ p images
unfolding where_
where_-snoc p [] i e = rw e refl
where_-snoc p (x ∷ images) i e = rw (where_-snoc p images i e) refl

put_image-keeps :
    (registry : Registry) (source_id media_item_id : ℕ) (image_type source_path : String)
    (images : List MediaImage)
    → where_ is_image_of_plex
        (put_image registry source_id jellyfin media_item_id image_type source_path images)
      ≡ where_ is_image_of_plex images
unfolding put_image
put_image-keeps registry source_id media_item_id image_type source_path images =
    elim (Bool-cases (any (has_type registry media_item_id image_type) images)) [
      | inl e ↦ rw e (where_update_where registry source_id source_path _ images)
      | inr e ↦ rw e (where_-snoc is_image_of_plex images _ refl)
    ]

-- The images of Plex stay as they are when an image of a source of Jellyfin is synchronized, whatever its
-- path is.
pub sync_image-keeps :
    (registry : Registry) (source_id media_item_id : ℕ) (image_type : String)
    (source_path : Option String) (images : List MediaImage)
    → provider_of registry (source_of registry source_id) ≡ jellyfin
    → where_ is_image_of_plex
        (sync_image registry source_id media_item_id image_type source_path images)
      ≡ where_ is_image_of_plex images
unfolding sync_image
sync_image-keeps registry source_id media_item_id image_type none images of_jellyfin = refl
sync_image-keeps registry source_id media_item_id image_type (some source_path) images of_jellyfin =
    elim (Bool-cases (has_manual_match registry media_item_id)) [
      | inl e ↦ rw e refl
      | inr e ↦
          rw (e, of_jellyfin)
            (put_image-keeps registry source_id media_item_id image_type source_path images)
    ]
