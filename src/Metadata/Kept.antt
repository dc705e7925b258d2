-- ===== src/Metadata/Kept.antt =====
-- What the identifiers of an item are after a synchronization (sync/persistence.py).
use mathlib.Core.List.{append_assoc, append-nil}
use euvieouvi.Base.{
  ℕ, ◌≡◌, ◌⊎◌, inl, inr, refl, sym, ap, ◌∙◌, Bool, false, ◌&&◌, ◌||◌, List, [], ◌∷◌, ◌++◌, arith,
  All, any, where_, Bool-cases,
}
use euvieouvi.Sync.Media.{Identifier}
use euvieouvi.Metadata.Row.{Registry, has_manual_match, canonical_source_may_update}
use euvieouvi.Metadata.Identifiers.{
  StoredIdentifier, is_stable, conflicts, agrees, new_identifier, add_value, sync_value,
  sync_values, is_of_item, sync_identifier_values,
}

-- A row that may be added beside the rows of the item: of no stable provider, or of one of which the item has
-- no other identifier.
abbrev pub IsHarmless : List StoredIdentifier → StoredIdentifier → Type 0
IsHarmless existing row =
    (is_stable row.provider ≡ false)
    ⊎ (any (conflicts (record { provider = row.provider; external_id = row.external_id })) existing
        ≡ false)

-- Rows that are added and nothing else.
pub record OnlyAdds (existing rows after : List StoredIdentifier) : Type 0 where
  pub added : List StoredIdentifier
  pub after_rows : after ≡ rows ++ added
  pub harmless : All (IsHarmless existing) added

module _ (media_item_id : ℕ) (existing : List StoredIdentifier) where
  sync_value-OnlyAdds :
      (value : Identifier) (rows : List StoredIdentifier)
      → OnlyAdds existing rows (sync_value false media_item_id existing value rows)
  unfolding sync_value add_value
  sync_value-OnlyAdds value rows =
      elim (Bool-cases (any (conflicts value) existing && is_stable value.provider)) [
        | inl e ↦ record { added = []; after_rows = rw e (sym (append-nil rows)); harmless = tt }
        | inr e ↦ elim (Bool-cases (any (agrees value) existing)) [
          | inl k ↦ record {
            added = [];
            after_rows = rw (e, k) (sym (append-nil rows));
            harmless = tt;
          }
          | inr k ↦ record {
            added = new_identifier media_item_id value ∷ [];
            after_rows = rw (e, k) refl;
            harmless = (ground arith, tt);
          }
        ]
      ]

  sync_values-OnlyAdds :
      (values : List Identifier) (rows : List StoredIdentifier)
      → OnlyAdds existing rows (sync_values false media_item_id existing values rows)
  unfolding sync_values
  sync_values-OnlyAdds [] rows = record {
    added = [];
    after_rows = sym (append-nil rows);
    harmless = tt;
  }
  sync_values-OnlyAdds (value ∷ values) rows =
      let first = sync_value-OnlyAdds value rows in
      let rest = sync_values-OnlyAdds values (sync_value false media_item_id existing value rows) in
      record {
        added = first.added ++ rest.added;
        after_rows =
            rest.after_rows
            ∙ ap (λ before. before ++ rest.added) first.after_rows
            ∙ append_assoc rows first.added rest.added;
        harmless = All-append first.added rest.added first.harmless rest.harmless;
      }
    where
      All-append :
          (xs ys : List StoredIdentifier)
          → All (IsHarmless existing) xs
          → All (IsHarmless existing) ys
          → All (IsHarmless existing) (xs ++ ys)
      All-append [] ys h k = k
      All-append (x ∷ xs) ys h k = (h.0, All-append xs ys h.1 k)

-- A source that may not change an item, because the item was matched by hand or because Plex knows it and
-- the source is another, removes none of its identifiers. It adds none of a stable provider of which the
-- item has another one.
pub sync_identifier_values-OnlyAdds :
    (registry : Registry) (source_id : ℕ) (is_synced : Bool) (media_item_id : ℕ)
    (values : List Identifier) (rows : List StoredIdentifier)
    → canonical_source_may_update registry source_id media_item_id ≡ false
    → OnlyAdds
        (where_ (is_of_item media_item_id) rows)
        rows
        (sync_identifier_values registry source_id is_synced media_item_id values rows)
unfolding sync_identifier_values
sync_identifier_values-OnlyAdds registry source_id is_synced media_item_id values rows may_not =
    let existing = where_ (is_of_item media_item_id) rows in
    elim (Bool-cases (has_manual_match registry media_item_id || is_synced)) [
      | inl e ↦ rw e (record { added = []; after_rows = sym (append-nil rows); harmless = tt })
      | inr e ↦ rw (e, may_not) (sync_values-OnlyAdds media_item_id existing values rows)
    ]
