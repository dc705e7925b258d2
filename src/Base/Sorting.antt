-- ===== src/Base/Sorting.antt =====
-- `ORDER BY` and `sorted`: a stable insertion sort by a Boolean order, and its laws.
use mathlib.Core.Path.{◌≡◌, subst}
use mathlib.Core.Bool.{Bool, true, false}
use mathlib.Core.Logic.{inl, inr}
use mathlib.Core.Option.{some}
use mathlib.Core.List.{List, [], ◌∷◌}
use native.Mathlib.Omega.{arith}
use euvieouvi.Base.Tests.{if◌then◌else◌, Bool-cases}
use euvieouvi.Base.Tables.{All, All-map, find_first}

module _ {ℓ} {A : Type ℓ} (before : A → A → Bool) where
  unfoldable pub insert_by : A → List A → List A
  insert_by a [] = a ∷ []
  insert_by a (x ∷ xs) = let later = insert_by a xs in if before a x then a ∷ x ∷ xs else x ∷ later

  unfoldable pub order_by : List A → List A
  unfolding insert_by
  order_by [] = []
  order_by (x ∷ xs) = insert_by x (order_by xs)

  abbrev pub IsOrdered : List A → Type 0
  IsOrdered [] = Unit
  IsOrdered (x ∷ xs) = All (λ y. before x y ≡ true) xs × IsOrdered xs

  All-insert_by {κ} :
      (P : A → Type κ) (a : A) (xs : List A) → P a → All P xs → All P (insert_by a xs)
  unfolding insert_by
  All-insert_by P a [] h k = (h, tt)
  All-insert_by P a (x ∷ xs) h k = elim (Bool-cases (before a x)) [
    | inl e ↦ rw e (h, k)
    | inr e ↦ rw e (k.0, All-insert_by P a xs h k.1)
  ]

  All-of_insert_by {κ} :
      (P : A → Type κ) (a : A) (xs : List A) → All P (insert_by a xs) → P a × All P xs
  unfolding insert_by
  All-of_insert_by P a [] h = h
  All-of_insert_by P a (x ∷ xs) h = elim (Bool-cases (before a x)) [
    | inl e ↦ rw e at h
    | inr e ↦
        let k : P x × All P (insert_by a xs) = rw e at h in
        let (pa, rest) = All-of_insert_by P a xs k.1 in (pa, (k.0, rest))
  ]

  pub All-order_by {κ} : (P : A → Type κ) (xs : List A) → All P xs → All P (order_by xs)
  unfolding order_by
  All-order_by P [] h = tt
  All-order_by P (x ∷ xs) h = All-insert_by P x (order_by xs) h.0 (All-order_by P xs h.1)

  pub All-of_order_by {κ} : (P : A → Type κ) (xs : List A) → All P (order_by xs) → All P xs
  unfolding order_by
  All-of_order_by P [] h = tt
  All-of_order_by P (x ∷ xs) h =
      let (here, later) = All-of_insert_by P x (order_by xs) h in (here, All-of_order_by P xs later)

-- A total preorder, as a Boolean test.
pub record IsOrder {ℓ} {A : Type ℓ} (before : A → A → Bool) : Type ℓ where
  pub total : (a b : A) → before a b ≡ false → before b a ≡ true
  pub trans : (a b c : A) → before a b ≡ true → before b c ≡ true → before a c ≡ true

module _ {ℓ} {A : Type ℓ} {before : A → A → Bool} (order : IsOrder before) where
  before_self : (a : A) → before a a ≡ true
  before_self a = elim (Bool-cases (before a a)) [ inl e ↦ e | inr e ↦ order.total a a e ]

  insert_by-IsOrdered :
      (a : A) (xs : List A) → IsOrdered before xs → IsOrdered before (insert_by before a xs)
  unfolding insert_by
  insert_by-IsOrdered a [] h = (tt, tt)
  insert_by-IsOrdered a (x ∷ xs) h = elim (Bool-cases (before a x)) [
    | inl e ↦ rw e ((e, All-map xs (λ y. order.trans a x y e) h.0), h)
    | inr e ↦
        rw e (All-insert_by before _ a xs (order.total a x e) h.0, insert_by-IsOrdered a xs h.1)
  ]

  pub order_by-IsOrdered : (xs : List A) → IsOrdered before (order_by before xs)
  unfolding order_by
  order_by-IsOrdered [] = tt
  order_by-IsOrdered (x ∷ xs) = insert_by-IsOrdered x (order_by before xs) (order_by-IsOrdered xs)

  find_first-least :
      (p : A → Bool) (xs : List A) (a : A)
      → find_first p xs ≡ some a
      → IsOrdered before xs
      → All (λ x. p x ≡ true → before a x ≡ true) xs
  unfolding find_first
  find_first-least p [] a e h = tt
  find_first-least p (x ∷ xs) a e h = elim (Bool-cases (p x)) [
    | inl t ↦
        let same : x ≡ a = ground arith in
        subst (λ z. (p x ≡ true → before z x ≡ true) × All (λ y. p y ≡ true → before z y ≡ true) xs)
          same ((λ _. before_self x), All-map xs (λ y b _. b) h.0)
    | inr t ↦ ((λ t'. cc), find_first-least p xs a (ground arith) h.1)
  ]

  -- The first row of a sorted selection that passes a test comes before every other that does.
  pub find_first-order_by :
      (p : A → Bool) (xs : List A) (a : A)
      → find_first p (order_by before xs) ≡ some a
      → All (λ x. p x ≡ true → before a x ≡ true) xs
  find_first-order_by p xs a e =
      All-of_order_by before _ xs
        (find_first-least p (order_by before xs) a e (order_by-IsOrdered xs))
