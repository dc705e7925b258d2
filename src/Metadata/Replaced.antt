-- ===== src/Metadata/Replaced.antt =====
-- The identifiers of a stable provider after a synchronization by the source that may change the item
-- (sync/persistence.py).
use euvieouvi.Base.{
  ℕ, ◌≡◌, ◌⊎◌, inl, inr, ◌∙◌, Bool, true, false, ◌&&◌, ◌||◌, List, [], ◌∷◌, ◌++◌, arith, All,
  All-map, All-snoc, any, delete_where, str_eq, eq_iff, Bool-cases,
}
use euvieouvi.Sync.Media.{Identifier}
use euvieouvi.Metadata.Identifiers.{
  StoredIdentifier, is_stable, conflicts, agrees, same_row, is_removed, new_identifier, add_value,
  sync_value, is_of_item,
}

All-kept :
    (P : StoredIdentifier → Type 0) (removed : StoredIdentifier → Bool)
    (rows : List StoredIdentifier)
    → All P rows
    → All (λ r. P r × (removed r ≡ false)) (delete_where removed rows)
unfolding delete_where
All-kept P removed [] h = tt
All-kept P removed (r ∷ rows) h = elim (Bool-cases (removed r)) [
  | inl e ↦ rw e (All-kept P removed rows h.1)
  | inr e ↦ rw e ((h.0, e), All-kept P removed rows h.1)
]

pub any-kept :
    (p removed : StoredIdentifier → Bool) (rows : List StoredIdentifier)
    → ((r : StoredIdentifier) → p r ≡ true → removed r ≡ false)
    → any p rows ≡ true
    → any p (delete_where removed rows) ≡ true
unfolding delete_where any
any-kept p removed [] keeps e = e
any-kept p removed (r ∷ rows) keeps e = ground (arith, keeps r, any-kept p removed rows keeps)

pub any-snoc :
    (p : StoredIdentifier → Bool) (rows : List StoredIdentifier) (row : StoredIdentifier)
    → any p (rows ++ row ∷ []) ≡ (any p rows || p row)
unfolding any
any-snoc p [] row = ground arith
any-snoc p (r ∷ rows) row = ground (arith, any-snoc p rows row)

conflicts-listed :
    (value : Identifier) (row : StoredIdentifier) (existing : List StoredIdentifier)
    → any (same_row row) existing ≡ true
    → conflicts value row ≡ true
    → any (conflicts value) existing ≡ true
unfolding any
conflicts-listed value row [] listed e = listed
conflicts-listed value row (x ∷ existing) listed e =
    let rest = conflicts-listed value row existing in
    elim (Bool-cases (same_row row x)) [
      | inl same ↦
          let provider : row.provider ≡ x.provider =
            ground (arith, eq_iff row.provider x.provider) in
          let id : row.external_id ≡ x.external_id =
            ground (arith, eq_iff row.external_id x.external_id) in
          let here : conflicts value x ≡ true = rw (← provider, ← id) e in ground arith
      | inr differs ↦ ground (arith, rest)
    ]

-- A row of the item and of the provider of the identifier.
abbrev pub is_about : ℕ → Identifier → StoredIdentifier → Bool
is_about media_item_id value r = is_of_item media_item_id r && str_eq r.provider value.provider

-- The row that is wanted.
abbrev pub is_wanted : ℕ → Identifier → StoredIdentifier → Bool
is_wanted media_item_id value r =
    is_about media_item_id value r && str_eq r.external_id value.external_id

abbrev pub IsFresh : ℕ → Identifier → StoredIdentifier → Type 0
IsFresh media_item_id value r =
    (is_about media_item_id value r ≡ false) ⊎ (str_eq r.external_id value.external_id ≡ true)

-- The rows of the item and of the provider are the identifier.
pub record IsDelivered (media_item_id : ℕ) (value : Identifier) (rows : List StoredIdentifier)
    : Type 0 where
  pub fresh : All (IsFresh media_item_id value) rows
  pub wanted : any (is_wanted media_item_id value) rows ≡ true

abbrev pub IsOld : ℕ → List StoredIdentifier → Identifier → StoredIdentifier → Type 0
IsOld media_item_id existing value r =
    IsFresh media_item_id value r ⊎ (any (same_row r) existing ≡ true)

-- Before the identifier is met in the loop.
pub record IsBefore (media_item_id : ℕ) (existing : List StoredIdentifier) (value : Identifier)
    (rows : List StoredIdentifier) : Type 0 where
  pub old : All (IsOld media_item_id existing value) rows
  pub present :
      (any (agrees value) existing ≡ false) ⊎ (any (is_wanted media_item_id value) rows ≡ true)

module _ (media_item_id : ℕ) (existing : List StoredIdentifier) (value : Identifier)
    (stable : is_stable value.provider ≡ true) where
  pub IsDelivered-IsBefore :
      (rows : List StoredIdentifier)
      → IsDelivered media_item_id value rows
      → IsBefore media_item_id existing value rows
  IsDelivered-IsBefore rows h = record {
    old = All-map rows (λ r f. inl f) h.fresh;
    present = inr h.wanted;
  }

  new_identifier-is_wanted :
      is_wanted media_item_id value (new_identifier media_item_id value) ≡ true
  new_identifier-is_wanted =
      ground
        (arith, eq_iff value.provider value.provider, eq_iff value.external_id value.external_id)

  added-IsDelivered :
      (rows : List StoredIdentifier)
      → All (IsFresh media_item_id value) rows
      → (any (agrees value) existing ≡ false) ⊎ (any (is_wanted media_item_id value) rows ≡ true)
      → IsDelivered media_item_id value (add_value true media_item_id existing value rows)
  unfolding add_value
  added-IsDelivered rows fresh present = elim (Bool-cases (any (agrees value) existing)) [
    | inl e ↦ rw e (record { fresh = fresh; wanted = ground (arith, present, e) })
    | inr e ↦ rw e (record {
      fresh =
          All-snoc (IsFresh media_item_id value) rows (new_identifier media_item_id value) fresh
            (inr (ground (arith, new_identifier-is_wanted)));
      wanted =
          any-snoc (is_wanted media_item_id value) rows (new_identifier media_item_id value)
          ∙ ground (arith, new_identifier-is_wanted);
    })
  ]

  -- What is old and stays does not conflict.
  old-IsFresh :
      (r : StoredIdentifier)
      → IsOld media_item_id existing value r
      → (any (same_row r) existing ≡ true → conflicts value r ≡ false)
      → IsFresh media_item_id value r
  old-IsFresh r (inl f) apart = f
  old-IsFresh r (inr listed) apart = ground (arith, apart listed)

  wanted_kept :
      (r : StoredIdentifier)
      → is_wanted media_item_id value r ≡ true
      → is_removed true media_item_id existing value r ≡ false
  wanted_kept r e = ground arith

  -- The identifier itself: what conflicts goes, and the row is there.
  pub delivered :
      (rows : List StoredIdentifier)
      → IsBefore media_item_id existing value rows
      → IsDelivered media_item_id value (sync_value true media_item_id existing value rows)
  unfolding sync_value
  delivered rows h = elim (Bool-cases (any (conflicts value) existing)) [
    | inl e ↦
        rw (e, stable)
          (added-IsDelivered (delete_where (is_removed true media_item_id existing value) rows)
            (All-map _ (λ r k. old-IsFresh r k.0 (λ listed. ground (arith, k.1, listed)))
              (All-kept (IsOld media_item_id existing value)
                (is_removed true media_item_id existing value) rows h.old))
            (elim (h.present) [
              | inl absent ↦ inl absent
              | inr there ↦ inr (
                  any-kept (is_wanted media_item_id value)
                    (is_removed true media_item_id existing value) rows wanted_kept there)
            ]))
    | inr e ↦ rw e (
        added-IsDelivered rows
          (All-map rows (λ r k. old-IsFresh r k (λ listed. unlisted r listed e)) h.old) h.present)
  ]
    where
      unlisted :
          (r : StoredIdentifier)
          → any (same_row r) existing ≡ true
          → any (conflicts value) existing ≡ false
          → conflicts value r ≡ false
      unlisted r listed none_conflicts = elim (Bool-cases (conflicts value r)) [
        | inl e ↦ absurd (ground (arith, conflicts-listed value r existing listed e))
        | inr e ↦ e
      ]
