-- ===== src/Union/Classes.antt =====
-- Which values the joins of `_UnionFind` (sync/catalog_projection.py) bring together.
use euvieouvi.Base.{
  ℕ, suc, ◌+◌, ◌≤◌, ◌<◌, ◌≡◌, ◌⊎◌, ◌↔◌, inl, inr, refl, sym, ap, subst, ◌∙◌, some, List, [], ◌∷◌,
  Memᴰ, arith, length,
}
use euvieouvi.Union.Forest.{Parents, IsForest, eq-cases, rep-fixed}
use euvieouvi.Union.Join.{
  find, join_all, new_union, find-rep, join-IsJoined, joined, hung, min-max-cases,
}

-- The least equivalence with the pairs that keeps together what has the same root at the start.
pub data Linked (start : ℕ → ℕ) (pairs : List (ℕ × ℕ)) : ℕ → ℕ → Type 0 where
  base : {x y : ℕ} → start x ≡ start y → Linked start pairs x y
  edge : {x y : ℕ} → Memᴰ (x, y) pairs → Linked start pairs x y
  back : {x y : ℕ} → Linked start pairs x y → Linked start pairs y x
  via : {x y z : ℕ} → Linked start pairs x y → Linked start pairs y z → Linked start pairs x z

module _ (start : ℕ → ℕ) (left right : ℕ) where
  joined-at : joined start left right left ≡ joined start left right right
  unfolding joined hung
  joined-at = elim (eq-cases (start left) (start right)) [
    | inl (b, e) ↦ rw b e
    | inr (b, ne) ↦ elim (min-max-cases (start left) (start right)) [
      | inl (w, l) ↦ rw (b, w, l) (ground arith)
      | inr (w, l) ↦ rw (b, w, l) (ground arith)
    ]
  ]

  -- What has the same root after the join had it before, or reaches both of the joined values.
  joined-cases :
      (x y : ℕ)
      → joined start left right x ≡ joined start left right y
      → (start x ≡ start y)
        ⊎ (((start x ≡ start left) × (start y ≡ start right))
            ⊎ ((start x ≡ start right) × (start y ≡ start left)))
  unfolding joined hung
  joined-cases x y e = ground arith

  joined-base :
      (x y : ℕ) → start x ≡ start y → joined start left right x ≡ joined start left right y
  unfolding joined hung
  joined-base x y e = ground arith

module _ (start : ℕ → ℕ) (left right : ℕ) (pairs : List (ℕ × ℕ)) where
  Linked-uncons :
      {x y : ℕ}
      → Linked (joined start left right) pairs x y
      → Linked start ((left, right) ∷ pairs) x y
  Linked-uncons {x} {y} (Linked.base e) =
      let pair : Linked start ((left, right) ∷ pairs) left right = Linked.edge (Memᴰ.head refl) in
      elim (joined-cases start left right x y e) [
        | inl same ↦ Linked.base same
        | inr (inl (l, r)) ↦ Linked.via (Linked.base l) (Linked.via pair (Linked.base (sym r)))
        | inr (inr (r, l)) ↦
            Linked.via (Linked.base r) (Linked.via (Linked.back pair) (Linked.base (sym l)))
      ]
  Linked-uncons (Linked.edge m) = Linked.edge (Memᴰ.tail m)
  Linked-uncons (Linked.back l) = Linked.back (Linked-uncons l)
  Linked-uncons (Linked.via l k) = Linked.via (Linked-uncons l) (Linked-uncons k)

  Linked-cons :
      {x y : ℕ}
      → Linked start ((left, right) ∷ pairs) x y
      → Linked (joined start left right) pairs x y
  Linked-cons {x} {y} (Linked.base e) = Linked.base (joined-base start left right x y e)
  Linked-cons {x} {y} (Linked.edge m) = elim m [
    | Memᴰ.head e ↦ Linked.base (
        ap (joined start left right) (ap (λ (a, b). a) e)
        ∙ joined-at start left right
        ∙ sym (ap (joined start left right) (ap (λ (a, b). b) e)))
    | Memᴰ.tail later ↦ Linked.edge later
  ]
  Linked-cons (Linked.back l) = Linked.back (Linked-cons l)
  Linked-cons (Linked.via l k) = Linked.via (Linked-cons l) (Linked-cons k)

-- What the joins lead to: a map in which every value has a root, the roots are the least members of
-- their classes, and two values have the same root exactly when the pairs link them.
pub record IsClassified (fuel : ℕ) (pairs : List (ℕ × ℕ)) (q : Parents) : Type 0 where
  pub root : ℕ → ℕ
  pub found : (x : ℕ) → (r : Parents) × (find fuel q x ≡ some (root x, r))
  pub member : (x : ℕ) → Linked new_union pairs x (root x)
  pub least : (x y : ℕ) → Linked new_union pairs x y → root x ≤ y
  pub apart : (x y : ℕ) → (root x ≡ root y) ↔ Linked new_union pairs x y

-- The same, of a forest.
pub record Joins (start : ℕ → ℕ) (fuel : ℕ) (pairs : List (ℕ × ℕ)) (q : Parents) : Type 0 where
  pub rep : ℕ → ℕ
  pub rank : ℕ → ℕ
  pub forest : IsForest rep rank q
  pub shallow : (x : ℕ) → rank x < fuel
  pub low : (x : ℕ) → rep x ≤ x
  pub sound : (x y : ℕ) → rep x ≡ rep y → Linked start pairs x y
  pub complete : (x y : ℕ) → Linked start pairs x y → rep x ≡ rep y

joined-low :
    (start : ℕ → ℕ) (left right : ℕ)
    → ((x : ℕ) → start x ≤ x)
    → (x : ℕ) → joined start left right x ≤ x
unfolding joined hung
joined-low start left right low x = let here = low x in ground arith

Linked-same : (start : ℕ → ℕ) {x y : ℕ} → Linked start [] x y → start x ≡ start y
Linked-same start (Linked.base e) = e
Linked-same start (Linked.edge m) = elim m [ ]
Linked-same start (Linked.back l) = sym (Linked-same start l)
Linked-same start (Linked.via l k) = Linked-same start l ∙ Linked-same start k

pub join_all-Joins :
    (pairs : List (ℕ × ℕ)) (start rank : ℕ → ℕ) (p : Parents) (fuel : ℕ)
    → IsForest start rank p
    → ((x : ℕ) → start x ≤ x)
    → ((x : ℕ) → rank x + length pairs < fuel)
    → (q : Parents) × (join_all fuel p pairs ≡ some q) × Joins start fuel pairs q
unfolding join_all
join_all-Joins [] start rank p fuel h low high = (
  p,
  refl,
  record {
    rep = start;
    rank = rank;
    forest = h;
    shallow = λ x. omega (arith, high x);
    low = low;
    sound = λ x y e. Linked.base e;
    complete = λ x y l. Linked-same start l;
  },
)
join_all-Joins ((left, right) ∷ pairs) start rank p fuel h low high =
    let first =
      join-IsJoined start rank p h fuel left right (omega (arith, high left))
        (omega (arith, high right)) in
    let (q, ended, joins) =
      join_all-Joins pairs (joined start left right) first.rank_after first.result fuel first.forest
        (joined-low start left right low) (λ x. omega (arith, high x, first.deeper x)) in
    (
      q,
      rw (first.ends, join_all) ended,
      record {
        rep = joins.rep;
        rank = joins.rank;
        forest = joins.forest;
        shallow = joins.shallow;
        low = joins.low;
        sound = λ x y e. Linked-uncons start left right pairs (joins.sound x y e);
        complete = λ x y l. joins.complete x y (Linked-cons start left right pairs l);
      },
    )

pub new_union-IsForest : IsForest (λ x. x) (λ x. 0) new_union
new_union-IsForest = record {
  step = λ x. refl;
  root = λ x e. refl;
  low = λ x e. refl;
  down = λ x ne. absurd (ne refl);
}

-- From the new map the joins of any pairs come to an end for fuel above the number of pairs, and so
-- does every look at a root after them. Two values have then the same root exactly when the least
-- equivalence with the pairs relates them, and the root is the least member of the class.
pub join_all-IsClassified :
    (pairs : List (ℕ × ℕ)) (fuel : ℕ)
    → length pairs < fuel
    → (q : Parents) × (join_all fuel new_union pairs ≡ some q) × IsClassified fuel pairs q
join_all-IsClassified pairs fuel high =
    let (q, ended, joins) =
      join_all-Joins pairs (λ x. x) (λ x. 0) new_union fuel new_union-IsForest (λ x. omega arith)
        (λ x. omega (arith, high)) in
    (
      q,
      ended,
      record {
        root = joins.rep;
        found = λ x.
            let (r, seen, _) =
              find-rep joins.rep joins.rank q joins.forest fuel x (joins.shallow x) in
            (r, seen);
        member = λ x. joins.sound x (joins.rep x) (sym (own q joins x));
        least = λ x y l. subst (λ r. r ≤ y) (sym (joins.complete x y l)) (joins.low y);
        apart = λ x y. (joins.sound x y, joins.complete x y);
      },
    )
  where
    own :
        (q : Parents) (joins : Joins (λ x. x) fuel pairs q) (x : ℕ)
        → joins.rep (joins.rep x) ≡ joins.rep x
    own q joins x =
        joins.forest.root (joins.rep x)
          (rep-fixed joins.rep joins.rank q joins.forest (suc (joins.rank x)) x (omega arith))
