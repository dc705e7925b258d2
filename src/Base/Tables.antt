-- ===== src/Base/Tables.antt =====
-- Tables of rows: lists with counts, filters and row-wise updates, as SQL statements act on them.
-- A WHERE clause is a Boolean test of the row.
use Prim.Native.Nat.{ℕ, suc, ◌+◌}
use mathlib.Core.Path.{◌≡◌, refl, sym, subst}
use mathlib.Core.Logic.{inl, inr}
use mathlib.Core.Bool.{Bool, true, false, ◌||◌}
use mathlib.Core.Option.{Option, none, some}
use mathlib.Core.List.{List, [], ◌∷◌, Memᴰ}
use native.Mathlib.Omega.{arith}
use euvieouvi.Base.Tests.{if◌then◌else◌, Bool-cases}

abbrev pub All {ℓ κ} : {A : Type ℓ} → (A → Type κ) → List A → Type κ
All P [] = Unit
All P (x ∷ xs) = P x × All P xs

module _ {ℓ} {A : Type ℓ} where
  abbrev pub length : List A → ℕ
  length [] = 0
  length (x ∷ xs) = suc (length xs)

  -- `select(...).where(p)`, in the order of the table
  unfoldable pub where_ : (A → Bool) → List A → List A
  where_ p [] = []
  where_ p (x ∷ xs) = let rest = where_ p xs in if p x then x ∷ rest else rest

  unfoldable pub any : (A → Bool) → List A → Bool
  any p [] = false
  any p (x ∷ xs) = p x || any p xs

  unfoldable pub count : (A → Bool) → List A → ℕ
  count p [] = 0
  count p (x ∷ xs) = (if p x then 1 else 0) + count p xs

  -- `next((item for item in items if p(item)), None)`
  unfoldable pub find_first : (A → Bool) → List A → Option A
  find_first p [] = none
  find_first p (x ∷ xs) = let rest = find_first p xs in if p x then some x else rest

  -- `update(...).where(p).values(f)`
  unfoldable pub update_where : (A → Bool) → (A → A) → List A → List A
  update_where p f [] = []
  update_where p f (x ∷ xs) = (if p x then f x else x) ∷ update_where p f xs

  -- `delete(...).where(p)`
  unfoldable pub delete_where : (A → Bool) → List A → List A
  delete_where p [] = []
  delete_where p (x ∷ xs) = let rest = delete_where p xs in if p x then rest else x ∷ rest

module _ {ℓ} {A : Type ℓ} where
  pub All-map {κ μ} :
      {P : A → Type κ} {Q : A → Type μ} (xs : List A) → ((x : A) → P x → Q x) → All P xs → All Q xs
  All-map [] f h = tt
  All-map (x ∷ xs) f h = (f x h.0, All-map xs f h.1)

  pub All-tabulate {κ} : {P : A → Type κ} (xs : List A) → ((x : A) → P x) → All P xs
  All-tabulate [] f = tt
  All-tabulate (x ∷ xs) f = (f x, All-tabulate xs f)

  pub All-both {κ μ} :
      (P : A → Type κ) (Q : A → Type μ) (xs : List A)
      → All P xs
      → All Q xs
      → All (λ x. P x × Q x) xs
  All-both P Q [] h k = tt
  All-both P Q (x ∷ xs) h k = ((h.0, k.0), All-both P Q xs h.1 k.1)

  pub All-update_where {κ μ} :
      {P : A → Type κ} {Q : A → Type μ} (p : A → Bool) (f : A → A) (xs : List A)
      → ((x : A) → P x → p x ≡ true → Q (f x))
      → ((x : A) → P x → p x ≡ false → Q x)
      → All P xs
      → All Q (update_where p f xs)
  unfolding update_where
  All-update_where p f [] hit miss h = tt
  All-update_where {Q = Q} p f (x ∷ xs) hit miss h = (
    elim (Bool-cases (p x)) [ inl e ↦ rw e (hit x h.0 e) | inr e ↦ rw e (miss x h.0 e) ],
    All-update_where p f xs hit miss h.1,
  )

  pub All-delete_where {κ} :
      (P : A → Type κ) (p : A → Bool) (xs : List A) → All P xs → All P (delete_where p xs)
  unfolding delete_where
  All-delete_where P p [] h = tt
  All-delete_where P p (x ∷ xs) h = elim (Bool-cases (p x)) [
    | inl e ↦ rw e (All-delete_where P p xs h.1)
    | inr e ↦ rw e (h.0, All-delete_where P p xs h.1)
  ]

  pub All-where_ {κ} :
      (P : A → Type κ) (p : A → Bool) (xs : List A)
      → All P xs
      → All (λ x. P x × (p x ≡ true)) (where_ p xs)
  unfolding where_
  All-where_ P p [] h = tt
  All-where_ P p (x ∷ xs) h = elim (Bool-cases (p x)) [
    | inl e ↦ rw e ((h.0, e), All-where_ P p xs h.1)
    | inr e ↦ rw e (All-where_ P p xs h.1)
  ]

  -- What holds of every selected row holds of every row that passes the test.
  pub All-of_where_ {κ} :
      (P : A → Type κ) (p : A → Bool) (xs : List A)
      → All P (where_ p xs)
      → All (λ x. p x ≡ true → P x) xs
  unfolding where_
  All-of_where_ P p [] h = tt
  All-of_where_ P p (x ∷ xs) h = elim (Bool-cases (p x)) [
    | inl e ↦
        let k : P x × All P (where_ p xs) = rw e at h in ((λ _. k.0), All-of_where_ P p xs k.1)
    | inr e ↦ let k : All P (where_ p xs) = rw e at h in ((λ t. cc), All-of_where_ P p xs k)
  ]

  pub find_first-some {κ} :
      (P : A → Type κ) (p : A → Bool) (xs : List A) (a : A)
      → find_first p xs ≡ some a
      → All P xs
      → P a × (p a ≡ true)
  unfolding find_first
  find_first-some P p [] a e h = cc
  find_first-some P p (x ∷ xs) a e h = elim (Bool-cases (p x)) [
    | inl t ↦ let same : x ≡ a = ground arith in rw (← same) (h.0, t)
    | inr t ↦ find_first-some P p xs a (ground arith) h.1
  ]

  pub find_first-none :
      (p : A → Bool) (xs : List A) → find_first p xs ≡ none → All (λ x. p x ≡ false) xs
  unfolding find_first
  find_first-none p [] e = tt
  find_first-none p (x ∷ xs) e = elim (Bool-cases (p x)) [
    | inl t ↦ absurd (ground arith)
    | inr t ↦ (t, find_first-none p xs (ground arith))
  ]

module _ {ℓ} {A : Type ℓ} where
  pub All-at {κ} : (P : A → Type κ) (xs : List A) {a : A} → All P xs → Memᴰ a xs → P a
  All-at P [] h m = elim m [ ]
  All-at P (x ∷ xs) h (Memᴰ.head e) = subst P (sym e) h.0
  All-at P (x ∷ xs) h (Memᴰ.tail m) = All-at P xs h.1 m

  pub All-Memᴰ : (xs : List A) → All (λ x. Memᴰ x xs) xs
  All-Memᴰ [] = tt
  All-Memᴰ (x ∷ xs) = (Memᴰ.head refl, All-map xs (λ y m. Memᴰ.tail m) (All-Memᴰ xs))
