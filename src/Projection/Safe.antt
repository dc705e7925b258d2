-- ===== src/Projection/Safe.antt =====
-- Which items may be one entry of the catalogue: `_safe_group` and `safe_identity_group` of
-- sync/catalog_projection.py.
use euvieouvi.Base.{
  ℕ, String, Bool, true, false, not, ◌||◌, Option, none, some, List, [], ◌∷◌, ◌++◌, map, where_,
  any, if◌then◌else◌, ◌==◌, ltb, str_eq, length,
}
use euvieouvi.Projection.Item.{
  Catalog, source_ids_of, available_sources_of, paths_of, manual_id_of, meets,
}

abbrev pub is_empty : {A : Type 0} → List A → Bool
is_empty [] = true
is_empty (x ∷ xs) = false

-- The loop of `_safe_group`, with the sources that are seen.
unfoldable pub safe_from : Catalog → List ℕ → List ℕ → Bool
safe_from c seen [] = true
safe_from c seen (media_id ∷ members) =
    let sources = available_sources_of c media_id in
    let rest = safe_from c (seen ++ sources) members in
    if is_empty (source_ids_of c media_id)
    then false
    else if meets ◌==◌ seen sources
    then false
    else rest

unfoldable pub safe_group : Catalog → List ℕ → Bool
safe_group c members = if ltb (length members) 2 then true else safe_from c [] members

-- An element of the set comprehension `manual_ids`.
unfoldable pub add_manual_id : Option String → List String → List String
add_manual_id none ids = ids
add_manual_id (some tmdb_id) ids = if any (str_eq tmdb_id) ids then ids else tmdb_id ∷ ids

unfoldable pub manual_ids : Catalog → List ℕ → List String
manual_ids c [] = []
manual_ids c (media_id ∷ members) = add_manual_id (manual_id_of c media_id) (manual_ids c members)

-- `known`
unfoldable pub known_paths : Catalog → List ℕ → List (List String)
known_paths c members = where_ (λ paths. not (is_empty paths)) (map (paths_of c) members)

-- `any(not left & right for index, left in enumerate(known) for right in known[index + 1 :])`
unfoldable pub some_apart : List (List String) → Bool
some_apart [] = false
some_apart (left ∷ known) = any (λ right. not (meets str_eq left right)) known || some_apart known

unfoldable pub safe_identity_group : Catalog → List ℕ → Bool
safe_identity_group c members =
    if ltb 1 (length (manual_ids c members))
    then false
    else if some_apart (known_paths c members)
    then false
    else safe_group c members
