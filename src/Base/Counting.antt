-- ===== src/Base/Counting.antt =====
-- How updates and deletions change the number of rows that pass a test.
use Prim.Native.Nat.{◌+◌, ◌≤◌, ◌<◌}
use mathlib.Core.Path.{◌≡◌, refl, sym, subst, ap, ◌∙◌}
use mathlib.Core.Bool.{Bool, true, false}
use mathlib.Core.Logic.{inl, inr}
use mathlib.Core.Option.{Option, none, some}
use mathlib.Core.List.{List, [], ◌∷◌, ◌++◌, Memᴰ}
use native.Mathlib.Omega.{arith}
use euvieouvi.Base.Tests.{if◌then◌else◌, Bool-cases, is_some}
use euvieouvi.Base.Sorting.{insert_by, order_by}
use euvieouvi.Base.Tables.{
  All, All-map, All-tabulate, any, count, find_first, update_where, delete_where,
}

module _ {ℓ} {A : Type ℓ} where
  abbrev pub map_found : (A → A) → Option A → Option A
  map_found f none = none
  map_found f (some a) = some (f a)

  abbrev pub found_or : Option A → Option A → Option A
  found_or none b = b
  found_or (some a) b = some a

module _ {ℓ} {A : Type ℓ} where
  pub count-le_of_imp :
      (p q : A → Bool) (xs : List A)
      → All (λ x. p x ≡ true → q x ≡ true) xs
      → count p xs ≤ count q xs
  unfolding count
  count-le_of_imp p q [] h = omega arith
  count-le_of_imp p q (x ∷ xs) h = ground (arith, count-le_of_imp p q xs h.1)

  -- An update that makes no row pass `q` that did not pass `p` before raises no count.
  pub count-update_where-le :
      (p q w : A → Bool) (f : A → A) (xs : List A)
      → All (λ x. w x ≡ true → q (f x) ≡ true → p x ≡ true) xs
      → All (λ x. w x ≡ false → q x ≡ true → p x ≡ true) xs
      → count q (update_where w f xs) ≤ count p xs
  unfolding count update_where
  count-update_where-le p q w f [] h k = omega arith
  count-update_where-le p q w f (x ∷ xs) h k =
      let ih = count-update_where-le p q w f xs h.1 k.1 in
      elim (Bool-cases (w x)) [
        | inl e ↦ let here = h.0 e in rw e (ground (arith, ih, here))
        | inr e ↦ let here = k.0 e in rw e (ground (arith, ih, here))
      ]

  pub count-delete_where-le :
      (p w : A → Bool) (xs : List A) → count p (delete_where w xs) ≤ count p xs
  unfolding count delete_where
  count-delete_where-le p w [] = omega arith
  count-delete_where-le p w (x ∷ xs) = ground (arith, count-delete_where-le p w xs)

  pub any-false_iff_count : (p : A → Bool) (xs : List A) → any p xs ≡ false → count p xs ≡ 0
  unfolding any count
  any-false_iff_count p [] h = omega arith
  any-false_iff_count p (x ∷ xs) h = ground (arith, any-false_iff_count p xs)

  pub any-true_of_count : (p : A → Bool) (xs : List A) → 0 < count p xs → any p xs ≡ true
  unfolding any count
  any-true_of_count p [] h = absurd (omega arith)
  any-true_of_count p (x ∷ xs) h = ground (arith, any-true_of_count p xs)

  pub any-false-All : (p : A → Bool) (xs : List A) → any p xs ≡ false → All (λ x. p x ≡ false) xs
  unfolding any
  any-false-All p [] h = tt
  any-false-All p (x ∷ xs) h = (ground arith, any-false-All p xs (ground arith))

  pub any-false_of_All : (p : A → Bool) (xs : List A) → All (λ x. p x ≡ false) xs → any p xs ≡ false
  unfolding any
  any-false_of_All p [] h = refl
  any-false_of_All p (x ∷ xs) h = ground (arith, any-false_of_All p xs h.1)

  pub none_of_count : (p : A → Bool) (xs : List A) → count p xs ≡ 0 → All (λ x. p x ≡ false) xs
  unfolding count
  none_of_count p [] h = tt
  none_of_count p (x ∷ xs) h = (ground arith, none_of_count p xs (ground arith))

  pub count-none : (p : A → Bool) (xs : List A) → All (λ x. p x ≡ false) xs → count p xs ≡ 0
  unfolding count
  count-none p [] h = refl
  count-none p (x ∷ xs) h = ground (arith, count-none p xs h.1)

  pub count-snoc :
      (p : A → Bool) (xs : List A) (y : A)
      → count p (xs ++ y ∷ []) ≡ count p xs + (if p y then 1 else 0)
  unfolding count
  count-snoc p [] y = omega arith
  count-snoc p (x ∷ xs) y = omega (arith, count-snoc p xs y)

  pub All-snoc {κ} : (P : A → Type κ) (xs : List A) (y : A) → All P xs → P y → All P (xs ++ y ∷ [])
  All-snoc P [] y h k = (k, tt)
  All-snoc P (x ∷ xs) y h k = (h.0, All-snoc P xs y h.1 k)

  pub count-pos : (p : A → Bool) (xs : List A) (a : A) → Memᴰ a xs → p a ≡ true → 0 < count p xs
  unfolding count
  count-pos p [] a m h = elim m [ ]
  count-pos p (x ∷ xs) a (Memᴰ.head e) h = rw (← e, h) (omega arith)
  count-pos p (x ∷ xs) a (Memᴰ.tail m) h = omega (arith, count-pos p xs a m h)

  pub update_where-none :
      (p : A → Bool) (f : A → A) (xs : List A)
      → All (λ x. p x ≡ false) xs
      → update_where p f xs ≡ xs
  unfolding update_where
  update_where-none p f [] h = refl
  update_where-none p f (x ∷ xs) h = rw (h.0, update_where-none p f xs h.1)

  pub find_first-absent : (p : A → Bool) (xs : List A) → count p xs ≡ 0 → find_first p xs ≡ none
  unfolding count find_first
  find_first-absent p [] h = refl
  find_first-absent p (x ∷ xs) h = ground (arith, find_first-absent p xs)

  -- Of rows that pass a test at most once, one that passes is the only one.
  pub unique-row :
      (p : A → Bool) (xs : List A) (a : A)
      → count p xs ≤ 1
      → Memᴰ a xs
      → p a ≡ true
      → All (λ x. p x ≡ true → x ≡ a) xs
  unfolding count
  unique-row p [] a few m h = tt
  unique-row p (x ∷ xs) a few (Memᴰ.head e) h =
      let here : p x ≡ true = subst (λ z. p z ≡ true) e h in
      let alone : count p xs ≡ 0 = ground arith in
      ((λ _. sym e), All-map xs (λ y no_y t. absurd (ground arith)) (none_of_count p xs alone))
  unique-row p (x ∷ xs) a few (Memᴰ.tail m) h =
      let more = count-pos p xs a m h in
      ((λ t. absurd (ground arith)), unique-row p xs a (ground arith) m h)

  pub count-update_where-lt :
      (p w : A → Bool) (f : A → A) (xs : List A) (a : A)
      → Memᴰ a xs
      → w a ≡ true
      → p a ≡ true
      → ((x : A) → w x ≡ true → p (f x) ≡ false)
      → count p (update_where w f xs) < count p xs
  unfolding count update_where
  count-update_where-lt p w f [] a m hw hp out = elim m [ ]
  count-update_where-lt p w f (x ∷ xs) a (Memᴰ.head e) hw hp out =
      let here : w x ≡ true = subst (λ z. w z ≡ true) e hw in
      let was : p x ≡ true = subst (λ z. p z ≡ true) e hp in
      let rest =
        count-update_where-le p p w f xs
          (All-tabulate xs (λ y e t. absurd (ground (arith, out y e))))
          (All-tabulate xs (λ y e t. t)) in
      rw here (ground (arith, out x here))
  count-update_where-lt p w f (x ∷ xs) a (Memᴰ.tail m) hw hp out =
      let ih = count-update_where-lt p w f xs a m hw hp out in
      elim (Bool-cases (w x)) [
        | inl e ↦ rw e (ground (arith, out x e))
        | inr e ↦ rw e (ground arith)
      ]

  count-insert_by :
      (before : A → A → Bool) (p : A → Bool) (a : A) (xs : List A)
      → count p (insert_by before a xs) ≡ (if p a then 1 else 0) + count p xs
  unfolding count insert_by
  count-insert_by before p a [] = refl
  count-insert_by before p a (x ∷ xs) = ground (arith, count-insert_by before p a xs)

  pub count-order_by :
      (before : A → A → Bool) (p : A → Bool) (xs : List A)
      → count p (order_by before xs) ≡ count p xs
  unfolding count order_by
  count-order_by before p [] = refl
  count-order_by before p (x ∷ xs) =
      count-insert_by before p x (order_by before xs)
      ∙ ap (λ n. (if p x then 1 else 0) + n) (count-order_by before p xs)

  -- The first row that passes a test after an update that changes no test.
  pub find_first-update_where :
      (p w : A → Bool) (f : A → A) (xs : List A)
      → ((x : A) → w x ≡ true → p (f x) ≡ p x)
      → find_first p (update_where w f xs)
        ≡ map_found (λ x. if w x then f x else x) (find_first p xs)
  unfolding find_first update_where
  find_first-update_where p w f [] same = refl
  find_first-update_where p w f (x ∷ xs) same = elim (Bool-cases (w x)) [
    | inl e ↦ rw (e, same x e) (ground (arith, find_first-update_where p w f xs same))
    | inr e ↦ rw e (ground (arith, find_first-update_where p w f xs same))
  ]

  pub find_first-snoc :
      (p : A → Bool) (xs : List A) (y : A)
      → find_first p (xs ++ y ∷ []) ≡ found_or (find_first p xs) (if p y then some y else none)
  unfolding find_first
  find_first-snoc p [] y = refl
  find_first-snoc p (x ∷ xs) y = ground (arith, find_first-snoc p xs y)

  pub any-find_first : (p : A → Bool) (xs : List A) → any p xs ≡ is_some (find_first p xs)
  unfolding any find_first
  any-find_first p [] = refl
  any-find_first p (x ∷ xs) = ground (arith, any-find_first p xs)
