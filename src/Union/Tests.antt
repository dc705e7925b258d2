-- ===== src/Union/Tests.antt =====
-- Joins of some ids, and the theorem at them.
use euvieouvi.Base.{ℕ, ◌≡◌, refl, Option, none, some, List, [], ◌∷◌, arith}
use euvieouvi.Union.Forest.{Parents, set, halve}
use euvieouvi.Union.Join.{find, hang_greater, join, join_all, new_union}
use euvieouvi.Union.Classes.{IsClassified, join_all-IsClassified}

program : Unit {0}
unfolding find hang_greater join join_all set halve
program = tt

abbrev answer : Option (ℕ × Parents) → Option ℕ
answer none = none
answer (some (root, _)) = some root

abbrev pairs : List (ℕ × ℕ)
pairs = (5, 3) ∷ (9, 7) ∷ (5, 9) ∷ []

abbrev root_of : ℕ → Option Parents → Option ℕ
root_of value none = none
root_of value (some q) = answer (find 4 q value)

root_of_nine : root_of 9 (join_all 4 new_union pairs) ≡ some 3
unfolding program
root_of_nine = refl

join_all-IsClassified_example :
    (q : Parents) × (join_all 4 new_union pairs ≡ some q) × IsClassified 4 pairs q
join_all-IsClassified_example = join_all-IsClassified pairs 4 (omega arith)
