-- ===== src/Projection/Canonical.antt =====
-- The canonical item of a group, which gives the entry its id (`canonical_id` of
-- sync/catalog_projection.py).
use euvieouvi.Base.{
  ℕ, ◌≡◌, inl, inr, refl, sym, subst, Bool, true, false, List, [], ◌∷◌, arith, All, Memᴰ,
  Bool-cases,
}
use euvieouvi.Projection.Item.{Catalog}
use euvieouvi.Projection.Groups.{precedes, canonical_id}

module _ (c : Catalog) (in_plex : ℕ → Bool) where
  precedes_refl : (a : ℕ) → precedes c in_plex a a ≡ true
  unfolding precedes
  precedes_refl a = ground arith

  precedes_total : (a b : ℕ) → precedes c in_plex a b ≡ false → precedes c in_plex b a ≡ true
  unfolding precedes
  precedes_total a b e = ground arith

  precedes_trans :
      (a b d : ℕ)
      → precedes c in_plex a b ≡ true
      → precedes c in_plex b d ≡ true
      → precedes c in_plex a d ≡ true
  unfolding precedes
  precedes_trans a b d e k = ground arith

  -- A member that no other precedes.
  abbrev pub IsLeast : List ℕ → ℕ → Type 0
  IsLeast members a = Memᴰ a members × All (λ m. precedes c in_plex a m ≡ true) members

  -- The canonical item is a member of its group, and no other member precedes it: an item with a
  -- manual match comes before the others, then one that Plex has, then the one of the smallest id.
  canonical_id-IsLeast :
      (first : ℕ) (members : List ℕ)
      → IsLeast (first ∷ members) (canonical_id c in_plex first members)
  unfolding canonical_id
  canonical_id-IsLeast first [] = (Memᴰ.head refl, (precedes_refl first, tt))
  canonical_id-IsLeast first (m ∷ members) = elim (Bool-cases (precedes c in_plex first m)) [
    | inl e ↦
        let (listed, least) = canonical_id-IsLeast first members in
        let kept : canonical_id c in_plex first (m ∷ members)
            ≡ canonical_id c in_plex first members =
          rw e refl in
        subst (IsLeast (first ∷ m ∷ members)) (sym kept)
          (later listed, (least.0, (precedes_trans _ first m least.0 e, least.1)))
    | inr e ↦
        let (listed, least) = canonical_id-IsLeast m members in
        let taken : canonical_id c in_plex first (m ∷ members) ≡ canonical_id c in_plex m members =
          rw e refl in
        subst (IsLeast (first ∷ m ∷ members)) (sym taken) (
          Memᴰ.tail listed,
          (precedes_trans _ m first least.0 (precedes_total first m e), (least.0, least.1)),
        )
  ]
    where
      later : {a : ℕ} → Memᴰ a (first ∷ members) → Memᴰ a (first ∷ m ∷ members)
      later (Memᴰ.head e) = Memᴰ.head e
      later (Memᴰ.tail k) = Memᴰ.tail (Memᴰ.tail k)
