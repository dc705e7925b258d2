-- ===== src/Projection/Compatible.antt =====
-- What it means for the members of an entry that `safe_identity_group` (sync/catalog_projection.py)
-- accepts them.
use euvieouvi.Base.{
  ℕ, ◌≡◌, ◌⊎◌, inl, inr, refl, String, Bool, true, false, not, Option, none, some, List, [], ◌∷◌,
  ◌++◌, arith, where_, any, All, All-both, All-map, All-tabulate, ◌==◌, ltb, str_eq, eq_iff, length,
  Bool-cases,
}
use euvieouvi.Projection.Item.{Catalog, available_sources_of, paths_of, manual_id_of, meets}
use euvieouvi.Projection.Safe.{
  is_empty, safe_from, safe_group, add_manual_id, manual_ids, known_paths, some_apart,
  safe_identity_group,
}

abbrev pub same_match : Option String → Option String → Bool
same_match none _ = true
same_match (some a) none = true
same_match (some a) (some b) = str_eq a b

-- What a group asks of two members: no source in which both are available, a file in common where the
-- files of both are known, and one manual match where both have one.
pub record IsCompatible (c : Catalog) (a b : ℕ) : Type 0 where
  pub sources : meets ◌==◌ (available_sources_of c a) (available_sources_of c b) ≡ false
  pub files :
      (is_empty (paths_of c a) ≡ true)
      ⊎ ((is_empty (paths_of c b) ≡ true) ⊎ (meets str_eq (paths_of c a) (paths_of c b) ≡ true))
  pub matches : same_match (manual_id_of c a) (manual_id_of c b) ≡ true

-- A relation of every element with every later one.
abbrev pub AllPairs : {A : Type 0} → (A → A → Type 0) → List A → Type 0
AllPairs P [] = Unit
AllPairs P (x ∷ xs) = All (λ y. P x y) xs × AllPairs P xs

pub AllPairs-both :
    {A : Type 0} (P Q : A → A → Type 0) (xs : List A)
    → AllPairs P xs
    → AllPairs Q xs
    → AllPairs (λ x y. P x y × Q x y) xs
AllPairs-both P Q [] h k = tt
AllPairs-both P Q (x ∷ xs) h k = (All-both _ _ xs h.0 k.0, AllPairs-both P Q xs h.1 k.1)

pub AllPairs-map :
    {A : Type 0} (P Q : A → A → Type 0) (xs : List A)
    → ((x y : A) → P x y → Q x y)
    → AllPairs P xs
    → AllPairs Q xs
AllPairs-map P Q [] f h = tt
AllPairs-map P Q (x ∷ xs) f h = (All-map xs (λ y k. f x y k) h.0, AllPairs-map P Q xs f h.1)

-- What is true of each two of the elements that pass a test.
pub pairs_of_All :
    (P : ℕ → Type 0) (Q : ℕ → ℕ → Type 0) (members : List ℕ)
    → ((a b : ℕ) → P a → P b → Q a b)
    → All P members
    → AllPairs Q members
pairs_of_All P Q [] f h = tt
pairs_of_All P Q (m ∷ members) f h =
    (All-map members (λ b k. f m b h.0 k) h.1, pairs_of_All P Q members f h.1)

any-append :
    {A : Type 0} (p : A → Bool) (xs ys : List A)
    → any p (xs ++ ys) ≡ false
    → (any p xs ≡ false) × (any p ys ≡ false)
unfolding any
any-append p [] ys e = (refl, e)
any-append p (x ∷ xs) ys e = let (l, r) = any-append p xs ys (ground arith) in (ground arith, r)

meets-append :
    (seen later sources : List ℕ)
    → meets ◌==◌ (seen ++ later) sources ≡ false
    → (meets ◌==◌ seen sources ≡ false) × (meets ◌==◌ later sources ≡ false)
unfolding meets
meets-append seen later sources e = any-append _ seen later e

module _ (c : Catalog) where
  -- The sources of the members are pairwise apart, and apart from what was seen before.
  safe_from-apart :
      (seen members : List ℕ)
      → safe_from c seen members ≡ true
      → All (λ m. meets ◌==◌ seen (available_sources_of c m) ≡ false) members
        × AllPairs
            (λ a b. meets ◌==◌ (available_sources_of c a) (available_sources_of c b) ≡ false)
            members
  unfolding safe_from
  safe_from-apart seen [] e = (tt, tt)
  safe_from-apart seen (m ∷ members) e =
      let (before, pairs) =
        safe_from-apart (seen ++ available_sources_of c m) members (ground arith) in
      let split =
        All-map members
          (λ b k. meets-append seen (available_sources_of c m) (available_sources_of c b) k)
          before in
      (
        (ground arith, All-map members (λ b k. k.0) split),
        (All-map members (λ b k. k.1) split, pairs),
      )

  safe_group-apart :
      (members : List ℕ)
      → safe_group c members ≡ true
      → AllPairs
          (λ a b. meets ◌==◌ (available_sources_of c a) (available_sources_of c b) ≡ false)
          members
  unfolding safe_group
  safe_group-apart [] e = tt
  safe_group-apart (m ∷ []) e = (tt, tt)
  safe_group-apart (m ∷ n ∷ members) e = (safe_from-apart [] (m ∷ n ∷ members) (ground arith)).1

abbrev listed : Option String → List String → Bool
listed none texts = true
listed (some text) texts = any (str_eq text) texts

listed-same :
    (a b : Option String) (texts : List String)
    → ltb 1 (length texts) ≡ false
    → listed a texts ≡ true
    → listed b texts ≡ true
    → same_match a b ≡ true
unfolding any
listed-same none b texts few h k = refl
listed-same (some a) none texts few h k = refl
listed-same (some a) (some b) [] few h k = absurd (ground arith)
listed-same (some a) (some b) (t ∷ []) few h k = ground (arith, eq_iff a t, eq_iff b t, eq_iff a b)
listed-same (some a) (some b) (t ∷ u ∷ texts) few h k = absurd (ground arith)

listed-add_manual_id :
    (a : Option String) (ids : List String) → listed a (add_manual_id a ids) ≡ true
unfolding add_manual_id any
listed-add_manual_id none ids = refl
listed-add_manual_id (some a) ids = ground (arith, eq_iff a a)

listed-add_manual_id_other :
    (a b : Option String) (ids : List String)
    → listed b ids ≡ true
    → listed b (add_manual_id a ids) ≡ true
unfolding add_manual_id any
listed-add_manual_id_other none b ids k = k
listed-add_manual_id_other (some a) none ids k = refl
listed-add_manual_id_other (some a) (some b) ids k = ground arith

module _ (c : Catalog) where
  manual_ids-listed :
      (members : List ℕ)
      → All (λ m. listed (manual_id_of c m) (manual_ids c members) ≡ true) members
  unfolding manual_ids
  manual_ids-listed [] = tt
  manual_ids-listed (m ∷ members) = (
    listed-add_manual_id (manual_id_of c m) (manual_ids c members),
    All-map members
        (λ b k.
          listed-add_manual_id_other (manual_id_of c m) (manual_id_of c b) (manual_ids c members) k)
        (manual_ids-listed members),
  )

  manual_ids-same :
      (members : List ℕ)
      → ltb 1 (length (manual_ids c members)) ≡ false
      → AllPairs (λ a b. same_match (manual_id_of c a) (manual_id_of c b) ≡ true) members
  manual_ids-same members few =
      pairs_of_All _ _ members
        (λ a b h k.
          listed-same (manual_id_of c a) (manual_id_of c b) (manual_ids c members) few h k)
        (manual_ids-listed members)

  -- The files of two members are not known to be different ones.
  SharesFile : ℕ → ℕ → Type 0
  SharesFile a b =
      (is_empty (paths_of c a) ≡ true)
      ⊎ ((is_empty (paths_of c b) ≡ true) ⊎ (meets str_eq (paths_of c a) (paths_of c b) ≡ true))

  known_paths-shared :
      (paths : List String) (members : List ℕ)
      → any (λ right. not (meets str_eq paths right)) (known_paths c members) ≡ false
      → All
          (λ b. (is_empty (paths_of c b) ≡ true) ⊎ (meets str_eq paths (paths_of c b) ≡ true))
          members
  unfolding known_paths where_ any
  known_paths-shared paths [] e = tt
  known_paths-shared paths (b ∷ members) e = elim (Bool-cases (is_empty (paths_of c b))) [
    | inl empty ↦ (inl empty, known_paths-shared paths members (ground arith))
    | inr known ↦ (inr (ground arith), known_paths-shared paths members (ground arith))
  ]

  some_apart-SharesFile :
      (members : List ℕ) → some_apart (known_paths c members) ≡ false → AllPairs SharesFile members
  unfolding known_paths where_ some_apart SharesFile
  some_apart-SharesFile [] e = tt
  some_apart-SharesFile (m ∷ members) e = elim (Bool-cases (is_empty (paths_of c m))) [
    | inl empty ↦
        (All-tabulate members (λ b. inl empty), some_apart-SharesFile members (ground arith))
    | inr known ↦ (
      All-map members (λ b k. inr k) (known_paths-shared (paths_of c m) members (ground arith)),
      some_apart-SharesFile members (ground arith),
    )
  ]

  -- The members of a group that is accepted are pairwise compatible, in whatever order the group was
  -- collected.
  pub safe_identity_group-IsCompatible :
      (members : List ℕ) → safe_identity_group c members ≡ true → AllPairs (IsCompatible c) members
  unfolding safe_identity_group SharesFile
  safe_identity_group-IsCompatible members e =
      AllPairs-map _ (IsCompatible c) members
        (λ a b k. record { sources = k.0; files = k.1.0; matches = k.1.1 })
        (AllPairs-both _ _ members (safe_group-apart c members (ground arith)) (
          AllPairs-both _ _ members (some_apart-SharesFile members (ground arith))
            (manual_ids-same members (ground arith))))
