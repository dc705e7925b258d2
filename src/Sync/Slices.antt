-- ===== src/Sync/Slices.antt =====
-- Slices of a list of items, and the ids in them.
use euvieouvi.Base.{
  ℕ, zero, suc, ◌+◌, ◌-◌, ◌≤◌, ◌≡◌, refl, sym, ap, ◌∙◌, String, List, [], ◌∷◌, ◌++◌, arith, length,
  min,
}
use euvieouvi.Sync.Media.{ExternalMediaItem, external_ids_for_item}
use euvieouvi.Sync.Scan.{seen_ids}

-- The items from a position on, and the first of them.
abbrev pub drop : ℕ → List ExternalMediaItem → List ExternalMediaItem
drop zero xs = xs
drop (suc n) [] = []
drop (suc n) (x ∷ xs) = drop n xs

abbrev pub take : ℕ → List ExternalMediaItem → List ExternalMediaItem
take zero xs = []
take (suc n) [] = []
take (suc n) (x ∷ xs) = x ∷ take n xs

pub length-drop : (n : ℕ) (xs : List ExternalMediaItem) → length (drop n xs) ≡ length xs - n
length-drop zero xs = omega arith
length-drop (suc n) [] = omega arith
length-drop (suc n) (x ∷ xs) = omega (arith, length-drop n xs)

pub length-take : (n : ℕ) (xs : List ExternalMediaItem) → length (take n xs) ≡ min n (length xs)
length-take zero xs = omega arith
length-take (suc n) [] = omega arith
length-take (suc n) (x ∷ xs) = omega (arith, length-take n xs)

pub append_assoc : (xs ys zs : List String) → (xs ++ ys) ++ zs ≡ xs ++ (ys ++ zs)
append_assoc [] ys zs = refl
append_assoc (x ∷ xs) ys zs = ap (λ t. x ∷ t) (append_assoc xs ys zs)

drop-drop : (n m : ℕ) (xs : List ExternalMediaItem) → drop m (drop n xs) ≡ drop (n + m) xs
drop-drop zero m xs = let same : m ≡ zero + m = omega arith in ap (λ j. drop j xs) same
drop-drop (suc n) zero [] =
    let same : suc n ≡ suc n + zero = omega arith in ap (λ j. drop j []) same
drop-drop (suc n) (suc m) [] =
    let same : suc (n + suc m) ≡ suc n + suc m = omega arith in ap (λ j. drop j []) same
drop-drop (suc n) m (x ∷ xs) =
    let same : suc (n + m) ≡ suc n + m = omega arith in
    drop-drop n m xs ∙ ap (λ j. drop j (x ∷ xs)) same

take-all : (n : ℕ) (xs : List ExternalMediaItem) → length xs ≤ n → take n xs ≡ xs
take-all zero [] h = refl
take-all zero (x ∷ xs) h = absurd (omega arith)
take-all (suc n) [] h = refl
take-all (suc n) (x ∷ xs) h = ap (λ t. x ∷ t) (take-all n xs (omega arith))

seen_ids-split :
    (n : ℕ) (xs : List ExternalMediaItem)
    → seen_ids (take n xs) ++ seen_ids (drop n xs) ≡ seen_ids xs
unfolding seen_ids
seen_ids-split zero xs = refl
seen_ids-split (suc n) [] = refl
seen_ids-split (suc n) (x ∷ xs) =
    append_assoc (external_ids_for_item x) (seen_ids (take n xs)) (seen_ids (drop n xs))
    ∙ ap (λ t. external_ids_for_item x ++ t) (seen_ids-split n xs)

-- The ids of a page and of everything behind it.
pub seen_ids-page :
    (start size : ℕ) (items : List ExternalMediaItem) (seen : List String)
    → (seen ++ seen_ids (take size (drop start items))) ++ seen_ids (drop (start + size) items)
      ≡ seen ++ seen_ids (drop start items)
seen_ids-page start size items seen =
    append_assoc seen (seen_ids (take size (drop start items)))
      (seen_ids (drop (start + size) items))
    ∙ ap (λ t. seen ++ t)
        (ap (λ xs. seen_ids (take size (drop start items)) ++ seen_ids xs)
            (sym (drop-drop start size items))
          ∙ seen_ids-split size (drop start items))

-- The last page has everything from its position on.
pub seen_ids-last :
    (start size : ℕ) (items : List ExternalMediaItem)
    → length items ≤ start + size
    → seen_ids (take size (drop start items)) ≡ seen_ids (drop start items)
seen_ids-last start size items h =
    ap seen_ids (take-all size (drop start items) (omega (arith, length-drop start items)))
