-- ===== src/Sync/Persist.antt =====
-- `_persist_media_with_repair`, `_reconcile_persisted_item` and `_reconcile_identity_once`: an item is
-- persisted, and when that fails its identities are reconciled and it is tried once more.
use euvieouvi.Base.{
  ℕ, ◌+◌, String, Bool, true, false, ◌&&◌, ◌||◌, Option, none, some, List, [], ◌∷◌, str_eq,
  if◌then◌else◌, ◌==◌, any,
}
use euvieouvi.Sync.Media.{
  ExternalMediaItem, Identifier, MediaKind, movie, show, season, episode, artist, album, track,
  is_movie, is_episode,
}
use euvieouvi.Sync.Catalog.{Try, raised, returned, Catalog, PersistResult, Services}

-- The key of `_reconciled_catalog_identities`.
pub record Key : Type 0 where
  pub kind : MediaKind
  pub identifiers : List Identifier

kind_eq : MediaKind → MediaKind → Bool
kind_eq movie movie = true
kind_eq show show = true
kind_eq season season = true
kind_eq episode episode = true
kind_eq artist artist = true
kind_eq album album = true
kind_eq track track = true
kind_eq _ _ = false

same_identifier : Identifier → Identifier → Bool
same_identifier a b = str_eq a.provider b.provider && str_eq a.external_id b.external_id

-- The list without its first occurrence of the identifier, if there is one.
take_out : Identifier → List Identifier → Option (List Identifier)
unfolding same_identifier
take_out a [] = none
take_out a (b ∷ bs) =
    let rest = take_out a bs in
    if same_identifier a b then some bs else elim rest [ none ↦ none | some cs ↦ some (b ∷ cs) ]

-- Two sorted tuples are equal when their lists are permutations of each other.
same_identifiers : List Identifier → List Identifier → Bool
unfolding take_out
same_identifiers [] [] = true
same_identifiers [] (b ∷ bs) = false
same_identifiers (a ∷ xs) ys = elim (take_out a ys) [
  | none ↦ false
  | some rest ↦ same_identifiers xs rest
]

unfoldable pub same_key : Key → Key → Bool
unfolding kind_eq same_identifiers
same_key a b = kind_eq a.kind b.kind && same_identifiers a.identifiers b.identifiers

-- The catalogue in the transaction, and the set of keys, which no rollback touches.
pub record World (Rest : Type 0) : Type 0 where
  pub catalog : Catalog Rest
  pub reconciled : List Key

-- What became of an item: its result with the number of merged items, or the error that is recorded.
pub data Persisted : Type 0 where
  stored : PersistResult → ℕ → Persisted
  unstored : String → ℕ → Persisted

abbrev is_empty : List Identifier → Bool
is_empty [] = true
is_empty (a ∷ xs) = false

abbrev pub merged : Try ℕ → ℕ
merged (raised e) = 0
merged (returned n) = n

module _ {Rest : Type 0} where
  -- `with session.begin_nested()`: an exception takes the catalogue back, and only the catalogue.
  abbrev pub savepoint : World Rest → Try ℕ × World Rest → Try ℕ × World Rest
  savepoint w (raised e, w') = (raised e, record w' { catalog = w.catalog })
  savepoint w (returned n, w') = (returned n, w')

  -- The next part of a call with its number added, unless the first raised.
  abbrev and_then : Try ℕ × World Rest → (World Rest → Try ℕ × World Rest) → Try ℕ × World Rest
  and_then (raised e, w) next = (raised e, w)
  and_then (returned n, w) next = add n (next w)
    where
      add : ℕ → Try ℕ × World Rest → Try ℕ × World Rest
      add n (raised e, w) = (raised e, w)
      add n (returned m, w) = (returned (n + m), w)

  module _ (services : Services Rest) where
    unfoldable pub reconcile_identity_once :
        MediaKind → List Identifier → World Rest → Try ℕ × World Rest
    reconcile_identity_once kind identifiers w =
        elim (is_empty identifiers || any (same_key key) w.reconciled) [
          | true ↦ (returned 0, w)
          | false ↦ elim (services.reconcile_matching_items kind identifiers w.catalog) [
            | raised e ↦ (raised e, record w { reconciled = key ∷ w.reconciled })
            | returned (n, c) ↦
                (returned n, record w { catalog = c; reconciled = key ∷ w.reconciled })
          ]
        ]
      where
        key : Key
        key = record { kind = kind; identifiers = identifiers }

    show_part : ExternalMediaItem → World Rest → Try ℕ × World Rest
    show_part item w =
        if is_episode item.kind
        then reconcile_identity_once show item.show_identifiers w
        else (returned 0, w)

    -- An episode's show comes after the item itself.
    unfoldable pub reconcile_persisted_item :
        ExternalMediaItem → Bool → World Rest → Try ℕ × World Rest
    unfolding show_part
    reconcile_persisted_item item include_leaf w =
        if include_leaf
        then and_then (reconcile_identity_once item.kind item.identifiers w) (show_part item)
        else show_part item w

    -- The reconciliation after an item was stored, whose failure is only logged.
    unfoldable pub reconcile_stored :
        ExternalMediaItem → PersistResult → World Rest → Try ℕ × World Rest
    reconcile_stored item result w =
        and_then (physical item.file_paths) (reconcile_persisted_item item (is_movie item.kind))
      where
        merging : Try (ℕ × Catalog Rest) → Try ℕ × World Rest
        merging (raised e) = (raised e, w)
        merging (returned (n, c)) = (returned n, record w { catalog = c })

        physical : List String → Try ℕ × World Rest
        physical [] = (returned 0, w)
        physical (path ∷ paths) =
            merging (services.reconcile_physical_item result.media_item_id w.catalog)

    -- The second attempt, when the repair merged something.
    unfoldable pub persist_again : ℕ → ExternalMediaItem → ℕ → World Rest → Persisted × World Rest
    persist_again now item repaired w = elim (services.persist_media now item w.catalog) [
      | raised e ↦ (unstored e repaired, w)
      | returned (result, c) ↦ (stored result repaired, record w { catalog = c })
    ]

    unfoldable pub persist_media_with_repair :
        ℕ → ExternalMediaItem → World Rest → Persisted × World Rest
    persist_media_with_repair now item w = elim (services.persist_media now item w.catalog) [
      | raised original ↦ repair original (savepoint w (reconcile_persisted_item item true w))
      | returned (result, c) ↦ keep result (record w { catalog = c })
    ]
      where
        repair : String → Try ℕ × World Rest → Persisted × World Rest
        repair original (answer, w') =
            if merged answer == 0
            then (unstored original 0, w')
            else persist_again now item (merged answer) w'

        keep : PersistResult → World Rest → Persisted × World Rest
        keep result kept =
            let (answer, w') = savepoint kept (reconcile_stored item result kept) in
            (stored result (merged answer), w')
