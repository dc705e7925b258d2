-- ===== src/Projection/Groups.antt =====
-- The grouping of `rebuild_catalog_projection` (sync/catalog_projection.py): items with an identifier in
-- common, then the remaining items with one title, and the canonical item of each group.
use euvieouvi.Base.{
  ℕ, suc, String, Bool, true, false, not, ◌&&◌, ◌||◌, Option, none, some, List, [], ◌∷◌, ◌++◌, map,
  where_, any, order_by, if◌then◌else◌, ◌==◌, leb, str_eq, is_some, some_or, length,
}
use euvieouvi.Sync.Media.{MediaKind, episode, album, track}
use euvieouvi.Union.Forest.{Parents}
use euvieouvi.Union.Join.{find, join_all, new_union}
use euvieouvi.Projection.Item.{
  Catalog, MediaItem, MediaIdentifier, item_by_id, in_catalog, same_kind, manual_id_of,
}
use euvieouvi.Projection.Safe.{safe_identity_group}

-- `groups.setdefault(key, []).append(value)`
unfoldable pub add_to :
    {K V : Type 0} → (K → K → Bool) → K → V → List (K × List V) → List (K × List V)
add_to same key value [] = (key, value ∷ []) ∷ []
add_to same key value ((other, values) ∷ groups) =
    let rest = add_to same key value groups in
    if same key other then (other, values ++ value ∷ []) ∷ groups else (other, values) ∷ rest

-- `catalog_ids`
unfoldable pub catalog_ids : Catalog → List ℕ
catalog_ids c = map (λ row. row.id) (where_ (λ row. in_catalog row.kind) c.items)

pub record IdentityKey : Type 0 where
  pub kind : MediaKind
  pub provider : String
  pub external_id : String

abbrev pub same_identity : IdentityKey → IdentityKey → Bool
same_identity a b =
    same_kind a.kind b.kind && str_eq a.provider b.provider && str_eq a.external_id b.external_id

unfoldable pub identity_members :
    Catalog → List MediaIdentifier → List (IdentityKey × List ℕ) → List (IdentityKey × List ℕ)
identity_members c [] groups = groups
identity_members c (row ∷ rows) groups =
    let skipped = identity_members c rows groups in
    elim (item_by_id c row.media_item_id) [
      | none ↦ skipped
      | some item ↦
          let key : IdentityKey = record {
            kind = item.kind;
            provider = row.provider;
            external_id = row.external_id;
          } in
          let added = identity_members c rows (add_to same_identity key row.media_item_id groups) in
          if in_catalog item.kind then added else skipped
    ]

-- `fallback`, with the parent that `_fallback_identity` puts before the title
pub record FallbackKey : Type 0 where
  pub kind : MediaKind
  pub parent : Option ℕ
  pub title : String
  pub year : Option ℕ

abbrev pub same_number : Option ℕ → Option ℕ → Bool
same_number none none = true
same_number (some a) (some b) = a == b
same_number _ _ = false

abbrev pub same_fallback : FallbackKey → FallbackKey → Bool
same_fallback a b =
    same_kind a.kind b.kind
    && same_number a.parent b.parent
    && str_eq a.title b.title
    && same_number a.year b.year

abbrev pub has_parent : MediaKind → Bool
has_parent episode = true
has_parent album = true
has_parent track = true
has_parent _ = false

module _ (normalized_title : String → String) (c : Catalog) where
  unfoldable pub fallback_key : MediaItem → FallbackKey
  fallback_key row = record {
    kind = row.kind;
    parent = if has_parent row.kind then some (some_or row.parent_id 0) else none;
    title = normalized_title row.title;
    year = row.year;
  }

  unfoldable pub fallback_members :
      List ℕ → List (FallbackKey × List ℕ) → List (FallbackKey × List ℕ)
  fallback_members [] groups = groups
  fallback_members (media_id ∷ ids) groups =
      let skipped = fallback_members ids groups in
      elim (item_by_id c media_id) [
        | none ↦ skipped
        | some row ↦
            let added =
              fallback_members ids (add_to same_fallback (fallback_key row) media_id groups) in
            if any (λ i. i.media_item_id == media_id) c.identifiers then skipped else added
      ]

-- `for media_id in members[1:]: union.join(members[0], media_id)`
abbrev pub pairs_of : List ℕ → List (ℕ × ℕ)
pairs_of [] = []
pairs_of (first ∷ members) = map (λ media_id. (first, media_id)) members

module _ {K : Type 0} (c : Catalog) where
  unfoldable pub safe_pairs : List (K × List ℕ) → List (ℕ × ℕ)
  safe_pairs [] = []
  safe_pairs ((_, members) ∷ groups) =
      let rest = safe_pairs groups in
      if safe_identity_group c members then pairs_of members ++ rest else rest

-- `candidate_groups`: the items by their roots
unfoldable pub candidate_groups :
    ℕ → Parents → List ℕ → List (ℕ × List ℕ) → Option (List (ℕ × List ℕ))
candidate_groups fuel union [] groups = some groups
candidate_groups fuel union (media_id ∷ ids) groups = elim (find fuel union media_id) [
  | none ↦ none
  | some (root, after) ↦ candidate_groups fuel after ids (add_to ◌==◌ root media_id groups)
]

-- `groups`: a group that is not safe falls apart
unfoldable pub split_groups : Catalog → List (ℕ × List ℕ) → List (List ℕ)
split_groups c [] = []
split_groups c ((_, members) ∷ groups) =
    let rest = split_groups c groups in
    if (length members == 1) || safe_identity_group c members
    then members ∷ rest
    else map (λ media_id. media_id ∷ []) members ++ rest

module _ (normalized_title : String → String) (c : Catalog) where
  unfoldable pub joined_pairs : List (ℕ × ℕ)
  joined_pairs =
      safe_pairs c (identity_members c c.identifiers [])
      ++ safe_pairs c (fallback_members normalized_title c (order_by leb (catalog_ids c)) [])

  -- The groups. The walks get fuel for one step more than there are joins.
  unfoldable pub catalog_groups : Option (List (List ℕ))
  catalog_groups =
      let fuel = suc (length joined_pairs) in
      elim (join_all fuel new_union joined_pairs) [
        | none ↦ none
        | some union ↦ elim (candidate_groups fuel union (order_by leb (catalog_ids c)) []) [
          | none ↦ none
          | some groups ↦ some (split_groups c groups)
        ]
      ]

-- The order of `canonical_id`: items with a manual match first, then those of Plex, then by id.
unfoldable pub precedes : Catalog → (ℕ → Bool) → ℕ → ℕ → Bool
precedes c in_plex a b =
    let manual_a = is_some (manual_id_of c a) in
    let manual_b = is_some (manual_id_of c b) in
    if manual_a && not manual_b
    then true
    else if manual_b && not manual_a
    then false
    else if in_plex a && not (in_plex b)
    then true
    else if in_plex b && not (in_plex a)
    then false
    else leb a b

-- `min(members, key=...)` of `first` and the others
unfoldable pub canonical_id : Catalog → (ℕ → Bool) → ℕ → List ℕ → ℕ
canonical_id c in_plex first [] = first
canonical_id c in_plex first (media_id ∷ members) =
    canonical_id c in_plex (if precedes c in_plex first media_id then first else media_id) members
