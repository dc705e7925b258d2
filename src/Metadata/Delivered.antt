-- ===== src/Metadata/Delivered.antt =====
-- The loop of `_sync_identifier_values` over the identifiers that a source delivers (sync/persistence.py).
use euvieouvi.Base.{
  ℕ, ◌≡◌, ◌⊎◌, inl, inr, refl, sym, ◌∙◌, subst, Bool, true, false, ◌&&◌, List, [], ◌∷◌, arith, All,
  All-map, All-snoc, any, where_, All-delete_where, str_eq, eq_iff, Bool-cases,
}
use euvieouvi.Sync.Media.{Identifier}
use euvieouvi.Metadata.Row.{Registry, has_manual_match, canonical_source_may_update}
use euvieouvi.Metadata.Identifiers.{
  StoredIdentifier, is_stable, conflicts, agrees, same_row, is_removed, new_identifier, add_value,
  sync_value, sync_values, is_of_item, sync_identifier_values,
}
use euvieouvi.Metadata.Replaced.{
  any-kept, any-snoc, is_wanted, IsFresh, IsDelivered, IsOld, IsBefore, IsDelivered-IsBefore,
  delivered,
}

-- What one round keeps.
module _ (may_update : Bool) (media_item_id : ℕ) (existing : List StoredIdentifier)
    (value : Identifier) where
  add_value-All :
      (P : StoredIdentifier → Type 0) (rows : List StoredIdentifier)
      → P (new_identifier media_item_id value)
      → All P rows
      → All P (add_value may_update media_item_id existing value rows)
  unfolding add_value
  add_value-All P rows new h = elim (Bool-cases (any (agrees value) existing)) [
    | inl e ↦ rw e h
    | inr e ↦ rw e (All-snoc P rows (new_identifier media_item_id value) h new)
  ]

  add_value-any :
      (p : StoredIdentifier → Bool) (rows : List StoredIdentifier)
      → any p rows ≡ true
      → any p (add_value may_update media_item_id existing value rows) ≡ true
  unfolding add_value
  add_value-any p rows h = elim (Bool-cases (any (agrees value) existing)) [
    | inl e ↦ rw e h
    | inr e ↦ rw e (any-snoc p rows (new_identifier media_item_id value) ∙ ground (arith, h))
  ]

  sync_value-All :
      (P : StoredIdentifier → Type 0) (rows : List StoredIdentifier)
      → P (new_identifier media_item_id value)
      → All P rows
      → All P (sync_value may_update media_item_id existing value rows)
  unfolding sync_value add_value
  sync_value-All P rows new h =
      elim (Bool-cases (any (conflicts value) existing && is_stable value.provider)) [
        | inl e ↦ elim (Bool-cases may_update) [
          | inl k ↦ rw (e, k) (add_value-All P _ new (All-delete_where P _ rows h))
          | inr k ↦ rw (e, k) h
        ]
        | inr e ↦ rw e (add_value-All P rows new h)
      ]

  sync_value-any :
      (p : StoredIdentifier → Bool) (rows : List StoredIdentifier)
      → ((r : StoredIdentifier)
          → p r ≡ true
          → is_removed may_update media_item_id existing value r ≡ false)
      → any p rows ≡ true
      → any p (sync_value may_update media_item_id existing value rows) ≡ true
  unfolding sync_value add_value
  sync_value-any p rows keeps h =
      elim (Bool-cases (any (conflicts value) existing && is_stable value.provider)) [
        | inl e ↦ elim (Bool-cases may_update) [
          | inl k ↦ rw (e, k) (add_value-any p _ (any-kept p _ rows keeps h))
          | inr k ↦ rw (e, k) h
        ]
        | inr e ↦ rw e (add_value-any p rows h)
      ]

-- All that a list delivers for the provider of the value is the value.
abbrev pub IsOfOneVoice : Identifier → Identifier → Type 0
IsOfOneVoice value v = (str_eq v.provider value.provider ≡ false) ⊎ (v ≡ value)

module _ (media_item_id : ℕ) (existing : List StoredIdentifier) (value : Identifier)
    (stable : is_stable value.provider ≡ true) where
  -- A round for an identifier of another provider.
  other-fresh :
      (v : Identifier)
      → str_eq v.provider value.provider ≡ false
      → IsFresh media_item_id value (new_identifier media_item_id v)
  other-fresh v other = inl (ground (arith, other))

  other-keeps :
      (v : Identifier)
      → str_eq v.provider value.provider ≡ false
      → (r : StoredIdentifier) → is_wanted media_item_id value r ≡ true
      → is_removed true media_item_id existing v r ≡ false
  other-keeps v other r wanted = elim (Bool-cases (str_eq r.provider v.provider)) [
    | inl e ↦
        let mine : str_eq r.provider value.provider ≡ true = ground arith in
        let clash : str_eq r.provider value.provider ≡ false =
          subst (λ p. str_eq p value.provider ≡ false) (sym ((eq_iff r.provider v.provider).0 e))
            other in
        ground arith
    | inr e ↦ ground arith
  ]

  round_for_other-IsDelivered :
      (v : Identifier) (rows : List StoredIdentifier)
      → str_eq v.provider value.provider ≡ false
      → IsDelivered media_item_id value rows
      → IsDelivered media_item_id value (sync_value true media_item_id existing v rows)
  round_for_other-IsDelivered v rows other h = record {
    fresh = sync_value-All true media_item_id existing v _ rows (other-fresh v other) h.fresh;
    wanted = sync_value-any true media_item_id existing v _ rows (other-keeps v other) h.wanted;
  }

  round_for_other-IsBefore :
      (v : Identifier) (rows : List StoredIdentifier)
      → str_eq v.provider value.provider ≡ false
      → IsBefore media_item_id existing value rows
      → IsBefore media_item_id existing value (sync_value true media_item_id existing v rows)
  round_for_other-IsBefore v rows other h = record {
    old = sync_value-All true media_item_id existing v _ rows (inl (other-fresh v other)) h.old;
    present = elim (h.present) [
      | inl absent ↦ inl absent
      | inr there ↦
          inr (sync_value-any true media_item_id existing v _ rows (other-keeps v other) there)
    ];
  }

  round_for_value-IsDelivered :
      (v : Identifier) (rows : List StoredIdentifier)
      → v ≡ value
      → IsBefore media_item_id existing value rows
      → IsDelivered media_item_id value (sync_value true media_item_id existing v rows)
  round_for_value-IsDelivered v rows e h =
      subst (λ w. IsDelivered media_item_id value (sync_value true media_item_id existing w rows))
        (sym e) (delivered media_item_id existing value stable rows h)

  loop-keeps :
      (values : List Identifier) (rows : List StoredIdentifier)
      → All (IsOfOneVoice value) values
      → IsDelivered media_item_id value rows
      → IsDelivered media_item_id value (sync_values true media_item_id existing values rows)
  unfolding sync_values
  loop-keeps [] rows h k = k
  loop-keeps (v ∷ values) rows (inl other, h) k =
      loop-keeps values _ h (round_for_other-IsDelivered v rows other k)
  loop-keeps (v ∷ values) rows (inr e, h) k = loop-keeps values _ h (
      round_for_value-IsDelivered v rows e
        (IsDelivered-IsBefore media_item_id existing value stable rows k))

  -- The value is met, or one that is not of its provider.
  loop-delivers :
      (values : List Identifier) (rows : List StoredIdentifier)
      → All (IsOfOneVoice value) values
      → any (λ v. str_eq v.provider value.provider) values ≡ true
      → IsBefore media_item_id existing value rows
      → IsDelivered media_item_id value (sync_values true media_item_id existing values rows)
  unfolding sync_values any
  loop-delivers [] rows h met k = absurd (ground (arith, met))
  loop-delivers (v ∷ values) rows (inl other, h) met k =
      loop-delivers values _ h (ground (arith, met, other))
        (round_for_other-IsBefore v rows other k)
  loop-delivers (v ∷ values) rows (inr e, h) met k =
      loop-keeps values _ h (round_for_value-IsDelivered v rows e k)

  present_at_start :
      (rows : List StoredIdentifier)
      → (any (agrees value) (where_ (is_of_item media_item_id) rows) ≡ false)
        ⊎ (any (is_wanted media_item_id value) rows ≡ true)
  unfolding where_ any
  present_at_start [] = inl refl
  present_at_start (r ∷ rows) = ground (arith, present_at_start rows)

start-IsOld :
    (media_item_id : ℕ) (value : Identifier) (rows : List StoredIdentifier)
    → All (IsOld media_item_id (where_ (is_of_item media_item_id) rows) value) rows
unfolding where_ any
start-IsOld media_item_id value [] = tt
start-IsOld media_item_id value (r ∷ rows) =
    let rest = start-IsOld media_item_id value rows in
    elim (Bool-cases (is_of_item media_item_id r)) [
      | inl e ↦
          subst (λ existing. All (IsOld media_item_id existing value) (r ∷ rows))
            {x = r ∷ where_ (is_of_item media_item_id) rows} (sym (rw e refl))
            (inr first, All-map rows more rest)
      | inr e ↦
          subst (λ existing. All (IsOld media_item_id existing value) (r ∷ rows))
            {x = where_ (is_of_item media_item_id) rows} (sym (rw e refl))
            (inl (inl (ground (arith, e))), rest)
    ]
  where
    first : any (same_row r) (r ∷ where_ (is_of_item media_item_id) rows) ≡ true
    first = ground (arith, eq_iff r.provider r.provider, eq_iff r.external_id r.external_id)

    more :
        (x : StoredIdentifier)
        → IsOld media_item_id (where_ (is_of_item media_item_id) rows) value x
        → IsOld media_item_id (r ∷ where_ (is_of_item media_item_id) rows) value x
    more x (inl fresh) = inl fresh
    more x (inr listed) = inr (ground (arith, listed))

may_update-has_manual_match :
    (registry : Registry) (source_id media_item_id : ℕ)
    → canonical_source_may_update registry source_id media_item_id ≡ true
    → has_manual_match registry media_item_id ≡ false
unfolding canonical_source_may_update
may_update-has_manual_match registry source_id media_item_id may =
    elim (Bool-cases (has_manual_match registry media_item_id)) [
      | inl e ↦ absurd (ground (arith, may, e))
      | inr e ↦ e
    ]

-- After a source that may change an item delivered an identifier of a stable provider, and no other one of
-- that provider, the identifiers of the item and the provider are that one: it is stored, and the others
-- are removed. It is so for each set of identifiers that was not synchronized before.
pub sync_identifier_values-IsDelivered :
    (registry : Registry) (source_id media_item_id : ℕ) (values : List Identifier)
    (rows : List StoredIdentifier) (value : Identifier)
    → canonical_source_may_update registry source_id media_item_id ≡ true
    → is_stable value.provider ≡ true
    → All (IsOfOneVoice value) values
    → any (λ v. str_eq v.provider value.provider) values ≡ true
    → IsDelivered media_item_id value
        (sync_identifier_values registry source_id false media_item_id values rows)
unfolding sync_identifier_values
sync_identifier_values-IsDelivered registry source_id media_item_id values rows value may stable
      voice met =
    let existing = where_ (is_of_item media_item_id) rows in
    let start : IsBefore media_item_id existing value rows = record {
      old = start-IsOld media_item_id value rows;
      present = present_at_start media_item_id existing value stable rows;
    } in
    rw (may_update-has_manual_match registry source_id media_item_id may, may)
      (loop-delivers media_item_id existing value stable values rows voice met start)
