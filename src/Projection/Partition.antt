-- ===== src/Projection/Partition.antt =====
-- Where the items of the catalogue end up in `rebuild_catalog_projection`
-- (sync/catalog_projection.py).
use euvieouvi.Base.{
  ℕ, suc, ◌+◌, ◌<◌, ◌≡◌, inl, inr, refl, sym, ◌∙◌, String, true, ◌||◌, some, List, [], ◌∷◌, ◌++◌,
  arith, map, order_by, All, count, count-snoc, All-snoc, count-order_by, if◌then◌else◌, ◌==◌, leb,
  length, Bool-cases,
}
use euvieouvi.Union.Forest.{Parents, IsForest}
use euvieouvi.Union.Join.{find-rep, new_union}
use euvieouvi.Union.Classes.{Linked, join_all-Joins, new_union-IsForest}
use euvieouvi.Projection.Item.{Catalog}
use euvieouvi.Projection.Safe.{safe_identity_group}
use euvieouvi.Projection.Compatible.{
  AllPairs, IsCompatible, safe_identity_group-IsCompatible, pairs_of_All,
}
use euvieouvi.Projection.Groups.{
  add_to, catalog_ids, candidate_groups, split_groups, joined_pairs, catalog_groups,
}

-- How often an item stands in the groups.
unfoldable pub occurrences : ℕ → List (List ℕ) → ℕ
occurrences id [] = 0
occurrences id (group ∷ groups) = count (λ m. m == id) group + occurrences id groups

abbrev values_of : List (ℕ × List ℕ) → List (List ℕ)
values_of [] = []
values_of ((_, values) ∷ groups) = values ∷ values_of groups

add_to-occurrences :
    (id key value : ℕ) (groups : List (ℕ × List ℕ))
    → occurrences id (values_of (add_to ◌==◌ key value groups))
      ≡ (if value == id then 1 else 0) + occurrences id (values_of groups)
unfolding add_to occurrences count
add_to-occurrences id key value [] = ground arith
add_to-occurrences id key value ((other, values) ∷ groups) =
    ground (arith, count-snoc (λ m. m == id) values value, add_to-occurrences id key value groups)

-- Every member of the group of a root has this root.
HasRoots : (ℕ → ℕ) → List (ℕ × List ℕ) → Type 0
HasRoots rep [] = Unit
HasRoots rep ((root, members) ∷ groups) = All (λ m. rep m ≡ root) members × HasRoots rep groups

add_to-HasRoots :
    (rep : ℕ → ℕ) (value : ℕ) (groups : List (ℕ × List ℕ))
    → HasRoots rep groups
    → HasRoots rep (add_to ◌==◌ (rep value) value groups)
unfolding add_to HasRoots
add_to-HasRoots rep value [] h = ((refl, tt), tt)
add_to-HasRoots rep value ((root, members) ∷ groups) h = elim (Bool-cases (rep value == root)) [
  | inl e ↦ rw e (All-snoc _ members value h.0 (ground arith), h.1)
  | inr e ↦ rw e (h.0, add_to-HasRoots rep value groups h.1)
]

-- What the items that are left to group bring about.
record IsGathered (rep : ℕ → ℕ) (ids : List ℕ) (before after : List (ℕ × List ℕ)) : Type 0 where
  kept :
      (id : ℕ)
      → occurrences id (values_of after)
        ≡ occurrences id (values_of before) + count (λ m. m == id) ids
  roots : HasRoots rep after

candidate_groups-IsGathered :
    (rep rank : ℕ → ℕ) (fuel : ℕ)
    → ((x : ℕ) → rank x < fuel)
    → (ids : List ℕ) (union : Parents) (before : List (ℕ × List ℕ)) → IsForest rep rank union
    → HasRoots rep before
    → (after : List (ℕ × List ℕ)) × (candidate_groups fuel union ids before ≡ some after)
      × IsGathered rep ids before after
unfolding candidate_groups count
candidate_groups-IsGathered rep rank fuel high [] union before h roots =
    (before, refl, record { kept = λ id. omega arith; roots = roots })
candidate_groups-IsGathered rep rank fuel high (m ∷ ids) union before h roots =
    let (q, found, forest) = find-rep rep rank union h fuel m (high m) in
    let (after, ended, gathered) =
      candidate_groups-IsGathered rep rank fuel high ids q (add_to ◌==◌ (rep m) m before) forest
        (add_to-HasRoots rep m before roots) in
    (
      after,
      rw (found, candidate_groups) ended,
      record {
        kept = λ id. omega (arith, gathered.kept id, add_to-occurrences id (rep m) m before);
        roots = gathered.roots;
      },
    )

split_groups-occurrences :
    (c : Catalog) (id : ℕ) (groups : List (ℕ × List ℕ))
    → occurrences id (split_groups c groups) ≡ occurrences id (values_of groups)
unfolding split_groups occurrences count
split_groups-occurrences c id [] = refl
split_groups-occurrences c id ((root, members) ∷ groups) =
    elim (Bool-cases ((length members == 1) || safe_identity_group c members)) [
      | inl e ↦ rw e (omega (arith, split_groups-occurrences c id groups))
      | inr e ↦ rw e (
          occurrences-append (map (λ m. m ∷ []) members) (split_groups c groups)
          ∙ omega (arith, split_groups-occurrences c id groups, occurrences-singles members))
    ]
  where
    occurrences-append :
        (left right : List (List ℕ))
        → occurrences id (left ++ right) ≡ occurrences id left + occurrences id right
    occurrences-append [] right = omega arith
    occurrences-append (group ∷ left) right = omega (arith, occurrences-append left right)

    occurrences-singles :
        (members : List ℕ)
        → occurrences id (map (λ m. m ∷ []) members) ≡ count (λ m. m == id) members
    occurrences-singles [] = refl
    occurrences-singles (m ∷ members) = omega (arith, occurrences-singles members)

-- A group that became an entry: its members are pairwise compatible, and linked by identifiers and
-- titles.
pub record IsEntry (normalized_title : String → String) (c : Catalog) (group : List ℕ)
    : Type 0 where
  pub compatible : AllPairs (IsCompatible c) group
  pub linked : AllPairs (Linked new_union (joined_pairs normalized_title c)) group

module _ (normalized_title : String → String) (c : Catalog) where
  singles-IsEntry :
      (members : List ℕ) (rest : List (List ℕ))
      → All (IsEntry normalized_title c) rest
      → All (IsEntry normalized_title c) (map (λ m. m ∷ []) members ++ rest)
  singles-IsEntry [] rest h = h
  singles-IsEntry (m ∷ members) rest h =
      (record { compatible = (tt, tt); linked = (tt, tt) }, singles-IsEntry members rest h)

  split_groups-IsEntry :
      (rep : ℕ → ℕ)
      → ((x y : ℕ) → rep x ≡ rep y → Linked new_union (joined_pairs normalized_title c) x y)
      → (groups : List (ℕ × List ℕ)) → HasRoots rep groups
      → All (IsEntry normalized_title c) (split_groups c groups)
  unfolding split_groups HasRoots
  split_groups-IsEntry rep sound [] h = tt
  split_groups-IsEntry rep sound ((root, members) ∷ groups) h =
      let later = split_groups-IsEntry rep sound groups h.1 in
      elim (Bool-cases ((length members == 1) || safe_identity_group c members)) [
        | inl e ↦ rw e (
          record {
            compatible = accepted members e;
            linked =
                pairs_of_All (λ m. rep m ≡ root) _ members (λ a b h k. sound a b (h ∙ sym k)) h.0;
          },
          later,
        )
        | inr e ↦ rw e (singles-IsEntry members (split_groups c groups) later)
      ]
    where
      accepted :
          (members : List ℕ)
          → ((length members == 1) || safe_identity_group c members) ≡ true
          → AllPairs (IsCompatible c) members
      accepted [] e = tt
      accepted (m ∷ []) e = (tt, tt)
      accepted (m ∷ n ∷ members) e =
          safe_identity_group-IsCompatible c (m ∷ n ∷ members) (ground arith)

  -- The projection comes to an end, whatever the catalogue holds. Its groups hold every item of the
  -- catalogue as often as the table does, that is once, and nothing else; two items of one group are
  -- linked by identifiers and titles, are not both available in one source, share a file where the
  -- files of both are known, and have no different manual matches.
  pub catalog_groups-IsPartition :
      (groups : List (List ℕ)) × (catalog_groups normalized_title c ≡ some groups)
      × ((id : ℕ) → occurrences id groups ≡ count (λ m. m == id) (catalog_ids c))
      × All (IsEntry normalized_title c) groups
  unfolding catalog_groups HasRoots occurrences
  catalog_groups-IsPartition =
      let pairs = joined_pairs normalized_title c in
      let ids = order_by leb (catalog_ids c) in
      let (union, joined, joins) =
        join_all-Joins pairs (λ x. x) (λ x. 0) new_union (suc (length pairs)) new_union-IsForest
          (λ x. omega arith) (λ x. omega arith) in
      let (after, gathered, h) =
        candidate_groups-IsGathered joins.rep joins.rank (suc (length pairs)) joins.shallow ids
          union [] joins.forest tt in
      (
        split_groups c after,
        rw (joined, gathered, catalog_groups) refl,
        λ id. omega (
          arith,
          split_groups-occurrences c id after,
          h.kept id,
          count-order_by leb (λ m. m == id) (catalog_ids c),
        ),
        split_groups-IsEntry joins.rep joins.sound after h.roots,
      )
