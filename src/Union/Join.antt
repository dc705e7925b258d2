-- ===== src/Union/Join.antt =====
-- `_UnionFind` of sync/catalog_projection.py: `find`, `join`, and the loops that join the members of the
-- groups. `none` stands for used up fuel only.
use euvieouvi.Base.{
  ℕ, suc, ◌≤◌, ◌<◌, ◌≡◌, ◌≢◌, ◌⊎◌, inl, inr, refl, sym, ap, subst, ◌∙◌, true, false, Option, none,
  some, List, [], ◌∷◌, arith, Bool-cases, if◌then◌else◌, ◌==◌, leb, leb→le, min, max,
}
use mathlib.Core.Path.{fun_ext}
use euvieouvi.Union.Forest.{
  Parents, set, halve, IsForest, eq-cases, set-same, set-other, rep-fixed, set-IsForest, halve-rep,
}

-- `find`: the walk starts at the parent, and the value is hung at the root at last.
unfoldable pub find : ℕ → Parents → ℕ → Option (ℕ × Parents)
find fuel p value = elim (halve fuel p (p value)) [
  | none ↦ none
  | some (parent, q) ↦ some (parent, set q value parent)
]

-- The end of `join`: the greater root is hung at the smaller one.
unfoldable pub hang_greater : Parents → ℕ → ℕ → Parents
hang_greater p left_root right_root =
    if left_root == right_root
    then p
    else set p (max left_root right_root) (min left_root right_root)

unfoldable pub join : ℕ → Parents → ℕ → ℕ → Option Parents
join fuel p left right = elim (find fuel p left) [
  | none ↦ none
  | some (left_root, q) ↦ elim (find fuel q right) [
    | none ↦ none
    | some (right_root, r) ↦ some (hang_greater r left_root right_root)
  ]
]

-- `union.join(members[0], media_id)` for the pairs of all groups, in their order.
unfoldable pub join_all : ℕ → Parents → List (ℕ × ℕ) → Option Parents
join_all fuel p [] = some p
join_all fuel p ((left, right) ∷ pairs) = elim (join fuel p left right) [
  | none ↦ none
  | some q ↦ join_all fuel q pairs
]

-- `{value: value for value in values}`
abbrev pub new_union : Parents
new_union = λ value. value

-- The roots, and the bounds of the steps, once the root `loser` is hung at the root `winner`.
unfoldable pub hung : (ℕ → ℕ) → ℕ → ℕ → ℕ → ℕ
hung rep loser winner x = if rep x == loser then winner else rep x

unfoldable pub deepened : (ℕ → ℕ) → (ℕ → ℕ) → ℕ → ℕ → ℕ
deepened rep rank loser x = if rep x == loser then suc (rank x) else rank x

module _ (rep rank : ℕ → ℕ) (p : Parents) (h : IsForest rep rank p) where
  module _ (loser winner : ℕ) (fixed : p winner ≡ winner) (apart : winner ≢ loser)
      (own : rep loser ≡ loser) where
    abbrev rep' : ℕ → ℕ
    rep' = hung rep loser winner

    abbrev rank' : ℕ → ℕ
    rank' = deepened rep rank loser

    at_loser : set p loser winner loser ≡ winner
    at_loser = set-same p loser winner loser refl

    hung-IsForest : IsForest rep' rank' (set p loser winner)
    unfolding hung deepened
    hung-IsForest = record {
      step = λ z. elim (eq-cases z loser) [
        | inl (_, e) ↦
            let there : set p loser winner z ≡ winner = set-same p loser winner z e in
            let same : rep z ≡ loser = ap rep e ∙ own in
            rw (there) (ground (arith, h.root winner fixed, own, apart, same))
        | inr (_, ne) ↦ rw (set-other p loser winner z ne, h.step z) refl
      ];
      root = λ z k. elim (eq-cases z loser) [
        | inl (_, e) ↦ absurd (apart (sym (set-same p loser winner z e) ∙ k ∙ e))
        | inr (b, ne) ↦ let r = h.root z (sym (set-other p loser winner z ne) ∙ k) in rw (r, b) refl
      ];
      low = λ z k. elim (eq-cases z loser) [
        | inl (_, e) ↦ absurd (apart (sym (set-same p loser winner z e) ∙ k ∙ e))
        | inr (b, ne) ↦
            let e = sym (set-other p loser winner z ne) ∙ k in
            let r = h.root z e in rw (r, b) (h.low z e)
      ];
      down = λ z k. elim (eq-cases z loser) [
        | inl (_, e) ↦
            let there : set p loser winner z ≡ winner = set-same p loser winner z e in
            let same : rep z ≡ loser = ap rep e ∙ own in
            let w = h.root winner fixed in
            let l = h.low winner fixed in rw there (ground (arith, w, l, apart, same))
        | inr (_, ne) ↦
            let there = set-other p loser winner z ne in
            let lower = h.down z (λ e. k (there ∙ e)) in
            rw (there, h.step z) (ground (arith, lower))
      ];
    }

  -- What hangs at its own root already, or is hung there, is a forest with the same roots.
  set-rep-IsForest : (value : ℕ) → IsForest rep rank (set p value (rep value))
  set-rep-IsForest value =
      let fixed = rep-fixed rep rank p h (suc (rank value)) value (omega arith) in
      elim (eq-cases (p value) value) [
        | inl (_, e) ↦
            let unchanged : set p value (rep value) ≡ p = fun_ext (λ z. elim (eq-cases z value) [
              | inl (_, same) ↦ cc (set-same p value (rep value) z same, h.root value e, e, same)
              | inr (_, other) ↦ set-other p value (rep value) z other
            ]) in
            subst (IsForest rep rank) (sym unchanged) h
        | inr (_, ne) ↦
            let own = h.root (rep value) fixed in
            let bottom = h.low (rep value) fixed in
            let lower = h.down value ne in
            set-IsForest rep rank p value (rep value) h own (omega (arith, bottom, lower))
      ]

-- `find` answers the root, and leaves a forest with the same roots.
pub find-rep :
    (rep rank : ℕ → ℕ) (p : Parents)
    → IsForest rep rank p
    → (fuel value : ℕ) → rank value < fuel
    → (q : Parents) × (find fuel p value ≡ some (rep value, q)) × IsForest rep rank q
unfolding find
find-rep rep rank p h fuel value high =
    let (q, ended, forest) =
      halve-rep rep rank fuel p (p value) h (below (eq-cases (p value) value)) in
    let here : halve fuel p (p value) ≡ some (rep value, q) =
      ended ∙ ap (λ r. some (r, q)) (h.step value) in
    (set q value (rep value), rw (here, find) refl, set-rep-IsForest rep rank q forest value)
  where
    below :
        (((p value == value) ≡ true) × (p value ≡ value))
          ⊎ (((p value == value) ≡ false) × (p value ≢ value))
        → rank (p value) < fuel
    below (inl (_, e)) =
        let same : rank (p value) ≡ rank value = ap rank e in omega (arith, same, high)
    below (inr (_, ne)) = omega (arith, h.down value ne, high)

-- Joining two trees: the greater root goes to the smaller one.
unfoldable pub joined : (ℕ → ℕ) → ℕ → ℕ → ℕ → ℕ
joined rep left right =
    if rep left == rep right
    then rep
    else hung rep (max (rep left) (rep right)) (min (rep left) (rep right))

pub record IsJoined (rep rank : ℕ → ℕ) (fuel : ℕ) (p : Parents) (left right : ℕ) : Type 0 where
  pub result : Parents
  pub ends : join fuel p left right ≡ some result
  pub rank_after : ℕ → ℕ
  pub forest : IsForest (joined rep left right) rank_after result
  pub deeper : (x : ℕ) → rank_after x ≤ suc (rank x)

pub min-max-cases : (a b : ℕ) → ((min a b ≡ a) × (max a b ≡ b)) ⊎ ((min a b ≡ b) × (max a b ≡ a))
min-max-cases a b = elim (Bool-cases (leb a b)) [
  | inl e ↦ let le = leb→le a b e in inl (omega (arith, le), omega (arith, le))
  | inr e ↦ inr (ground arith, ground arith)
]

hang_greater-IsForest :
    (rep rank : ℕ → ℕ) (p : Parents)
    → IsForest rep rank p
    → (left right : ℕ)
    → (rank' : ℕ → ℕ) × IsForest
        (joined rep left right)
        rank'
        (hang_greater p (rep left) (rep right))
      × ((x : ℕ) → rank' x ≤ suc (rank x))
unfolding joined hang_greater
hang_greater-IsForest rep rank p h left right = elim (eq-cases (rep left) (rep right)) [
  | inl (b, _) ↦ (rank, rw b h, λ x. omega arith)
  | inr (b, ne) ↦
      let winner = min (rep left) (rep right) in
      let loser = max (rep left) (rep right) in
      let left_fixed = rep-fixed rep rank p h (suc (rank left)) left (omega arith) in
      let right_fixed = rep-fixed rep rank p h (suc (rank right)) right (omega arith) in
      elim (min-max-cases (rep left) (rep right)) [
        | inl (w, l) ↦ (
          deepened rep rank loser,
          rw b (
              hung-IsForest rep rank p h loser winner (cc (w, left_fixed)) (λ e. ne (cc (w, l, e)))
                (h.root loser (cc (l, right_fixed)))),
          λ x. unfold deepened in ground arith,
        )
        | inr (w, l) ↦ (
          deepened rep rank loser,
          rw b (
              hung-IsForest rep rank p h loser winner (cc (w, right_fixed)) (λ e. ne (cc (w, l, e)))
                (h.root loser (cc (l, left_fixed)))),
          λ x. unfold deepened in ground arith,
        )
      ]
]

pub join-IsJoined :
    (rep rank : ℕ → ℕ) (p : Parents)
    → IsForest rep rank p
    → (fuel left right : ℕ) → rank left < fuel
    → rank right < fuel
    → IsJoined rep rank fuel p left right
unfolding join
join-IsJoined rep rank p h fuel left right high_left high_right =
    let (q, found_left, forest_q) = find-rep rep rank p h fuel left high_left in
    let (r, found_right, forest_r) = find-rep rep rank q forest_q fuel right high_right in
    let (after, forest, deeper) = hang_greater-IsForest rep rank r forest_r left right in
    record {
      result = hang_greater r (rep left) (rep right);
      ends = rw (found_left, found_right, join) refl;
      rank_after = after;
      forest = forest;
      deeper = deeper;
    }
