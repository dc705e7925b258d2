-- ===== src/Union/Forest.antt =====
-- Parent maps, as `_UnionFind` of sync/catalog_projection.py and `find` of sync/watch_sync.py keep them:
-- the walk to the root, with path halving.
use euvieouvi.Base.{
  ℕ, zero, suc, ◌<◌, ◌≡◌, ◌≢◌, ◌⊎◌, inl, inr, refl, sym, ap, subst, ◌∙◌, true, false, Option, none,
  some, arith, Bool-cases, if◌then◌else◌, ◌==◌,
}

-- A dict from ids to ids; only its keys are looked up.
abbrev pub Parents : Type 0
Parents = ℕ → ℕ

-- `parents[x] = y`
unfoldable pub set : Parents → ℕ → ℕ → Parents
set p x y = λ z. if z == x then y else p z

-- The while loop, from `x` on: the root and the map that it leaves. `none`: the fuel is used up.
unfoldable pub halve : ℕ → Parents → ℕ → Option (ℕ × Parents)
halve zero p x = none
halve (suc fuel) p x =
    let shorter = set p x (p (p x)) in
    let rest = halve fuel shorter (shorter x) in if p x == x then some (x, p) else rest

-- A forest with the roots `rep`: each step leads to the same root and lowers `rank`, the bound of the
-- steps that are left, until the root, where it is zero.
pub record IsForest (rep rank : ℕ → ℕ) (p : Parents) : Type 0 where
  pub step : (x : ℕ) → rep (p x) ≡ rep x
  pub root : (x : ℕ) → p x ≡ x → rep x ≡ x
  pub low : (x : ℕ) → p x ≡ x → rank x ≡ 0
  pub down : (x : ℕ) → p x ≢ x → rank (p x) < rank x

-- To split on equality.
pub eq-cases : (x y : ℕ) → (((x == y) ≡ true) × (x ≡ y)) ⊎ (((x == y) ≡ false) × (x ≢ y))
eq-cases x y = elim (Bool-cases (x == y)) [
  | inl e ↦ inl (e, ground arith)
  | inr e ↦ inr (e, λ same. ground arith)
]

pub set-same : (p : Parents) (x y z : ℕ) → z ≡ x → set p x y z ≡ y
unfolding set
set-same p x y z e = ground arith

pub set-other : (p : Parents) (x y z : ℕ) → z ≢ x → set p x y z ≡ p z
unfolding set
set-other p x y z other = ground arith

module _ (rep rank : ℕ → ℕ) where
  -- The root of `x` is a fixed point.
  pub rep-fixed :
      (p : Parents) → IsForest rep rank p → (fuel x : ℕ) → rank x < fuel → p (rep x) ≡ rep x
  rep-fixed p h zero x high = absurd (omega arith)
  rep-fixed p h (suc fuel) x high = elim (eq-cases (p x) x) [
    | inl (_, e) ↦ cc (h.root x e, e)
    | inr (_, ne) ↦
        let lower = h.down x ne in
        let ih = rep-fixed p h fuel (p x) (omega (arith, lower)) in
        subst (λ r. p r ≡ r) (h.step x) ih
  ]

  -- A node that is no root can be hung at any lower node of the same tree.
  pub set-IsForest :
      (p : Parents) (x y : ℕ)
      → IsForest rep rank p
      → rep y ≡ rep x
      → rank y < rank x
      → IsForest rep rank (set p x y)
  set-IsForest p x y h same lower = record {
    step = λ z. step_at z (eq-cases z x);
    root = λ z. root_at z (eq-cases z x);
    low = λ z. low_at z (eq-cases z x);
    down = λ z. down_at z (eq-cases z x);
  }
    where
      step_at :
          (z : ℕ)
          → (((z == x) ≡ true) × (z ≡ x)) ⊎ (((z == x) ≡ false) × (z ≢ x))
          → rep (set p x y z) ≡ rep z
      step_at z (inl (_, e)) = cc (set-same p x y z e, e, same)
      step_at z (inr (_, ne)) = cc (set-other p x y z ne, h.step z)

      root_at :
          (z : ℕ)
          → (((z == x) ≡ true) × (z ≡ x)) ⊎ (((z == x) ≡ false) × (z ≢ x))
          → set p x y z ≡ z
          → rep z ≡ z
      root_at z (inl (_, e)) k =
          let y_x : y ≡ x = cc (set-same p x y z e, e, k) in
          let loop : rank y ≡ rank x = ap rank y_x in absurd (omega (arith, loop, lower))
      root_at z (inr (_, ne)) k = h.root z (sym (set-other p x y z ne) ∙ k)

      low_at :
          (z : ℕ)
          → (((z == x) ≡ true) × (z ≡ x)) ⊎ (((z == x) ≡ false) × (z ≢ x))
          → set p x y z ≡ z
          → rank z ≡ 0
      low_at z (inl (_, e)) k =
          let y_x : y ≡ x = cc (set-same p x y z e, e, k) in
          let loop : rank y ≡ rank x = ap rank y_x in absurd (omega (arith, loop, lower))
      low_at z (inr (_, ne)) k = h.low z (sym (set-other p x y z ne) ∙ k)

      down_at :
          (z : ℕ)
          → (((z == x) ≡ true) × (z ≡ x)) ⊎ (((z == x) ≡ false) × (z ≢ x))
          → set p x y z ≢ z
          → rank (set p x y z) < rank z
      down_at z (inl (_, e)) k =
          let there : rank (set p x y z) ≡ rank y = ap rank (set-same p x y z e) in
          let here : rank z ≡ rank x = ap rank e in omega (arith, there, here, lower)
      down_at z (inr (_, ne)) k =
          let there : rank (set p x y z) ≡ rank (p z) = ap rank (set-other p x y z ne) in
          let lower_z = h.down z (λ e. k (set-other p x y z ne ∙ e)) in
          omega (arith, there, lower_z)

  -- Two steps go to the same root, and down.
  pub grandparent :
      (p : Parents) (x : ℕ)
      → IsForest rep rank p
      → p x ≢ x
      → (rep (p (p x)) ≡ rep x) × (rank (p (p x)) < rank x)
  grandparent p x h ne = (
    cc (h.step (p x), h.step x),
    elim (eq-cases (p (p x)) (p x)) [
      | inl (_, e) ↦
          let same : rank (p (p x)) ≡ rank (p x) = ap rank e in omega (arith, h.down x ne, same)
      | inr (_, other) ↦ omega (arith, h.down x ne, h.down (p x) other)
    ],
  )

  -- With fuel above its rank, the walk from `x` ends at the root, and what it leaves is a forest with
  -- the same roots.
  pub halve-rep :
      (fuel : ℕ) (p : Parents) (x : ℕ)
      → IsForest rep rank p
      → rank x < fuel
      → (q : Parents) × (halve fuel p x ≡ some (rep x, q)) × IsForest rep rank q
  unfolding halve
  halve-rep zero p x h high = absurd (omega arith)
  halve-rep (suc fuel) p x h high = elim (eq-cases (p x) x) [
    | inl (b, e) ↦ (p, rw (b, h.root x e), h)
    | inr (b, ne) ↦
        let (same, lower) = grandparent p x h ne in
        let there : set p x (p (p x)) x ≡ p (p x) = set-same p x (p (p x)) x refl in
        let left : rank (set p x (p (p x)) x) ≡ rank (p (p x)) = ap rank there in
        let (q, ended, forest) =
          halve-rep fuel (set p x (p (p x))) (set p x (p (p x)) x)
            (set-IsForest p x (p (p x)) h same lower) (omega (arith, left, lower)) in
        (q, rw b (ended ∙ ap (λ r. some (r, q)) (ap rep there ∙ same)), forest)
  ]
