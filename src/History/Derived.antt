-- ===== src/History/Derived.antt =====
-- What the rebuilt state of a container says of its children (sync/persistence.py).
use euvieouvi.Base.{
  ℕ, ◌≤◌, ◌<◌, ◌≡◌, inl, inr, refl, Bool, true, false, not, Option, none, some, List, [], ◌∷◌,
  arith, All, All-map, any, if◌then◌else◌, ◌==◌, ltb, Bool-cases, found_or,
}
use euvieouvi.Watch.Rows.{WatchState}
use euvieouvi.History.Containers.{Child, Aggregate, least_count, aggregate_completion, derive}

least_count-le :
    (child : Child) (children : List Child)
    → All (λ c. least_count child children ≤ c.view_count) (child ∷ children)
unfolding least_count
least_count-le child [] = (omega arith, tt)
least_count-le child (next ∷ children) =
    let rest = least_count-le next children in
    (omega arith, All-map (next ∷ children) (λ c h. omega (arith, h)) rest)

watched_least_count :
    (child : Child) (children : List Child)
    → any (λ c. c.view_count == 0) (child ∷ children) ≡ false
    → 0 < least_count child children
unfolding least_count any
watched_least_count child [] e = ground arith
watched_least_count child (next ∷ children) e =
    let rest = watched_least_count next children (ground arith) in ground (arith, rest)

-- Whether there are children and each of them is watched.
abbrev pub all_watched : List Child → Bool
all_watched [] = false
all_watched (child ∷ children) = not (any (λ c. c.view_count == 0) (child ∷ children))

-- A container is completed exactly when it has children and all of them are watched, and then none was
-- watched less often than the container.
pub record IsAggregate (children : List Child) (a : Aggregate) : Type 0 where
  pub completed : ltb 0 a.view_count ≡ all_watched children
  pub views : All (λ c. a.view_count ≤ c.view_count) children

bounded :
    (children : List Child) (least : ℕ) (b : Bool)
    → All (λ c. least ≤ c.view_count) children
    → All (λ c. (if b then 0 else least) ≤ c.view_count) children
bounded children least true h = All-map children (λ c k. omega arith) h
bounded children least false h = h

pub aggregate_completion-IsAggregate :
    (children : List Child) → IsAggregate children (aggregate_completion children)
unfolding aggregate_completion
aggregate_completion-IsAggregate [] = record { completed = refl; views = tt }
aggregate_completion-IsAggregate (child ∷ children) = record {
  completed = elim (Bool-cases (any (λ c. c.view_count == 0) (child ∷ children))) [
    | inl e ↦ rw e refl
    | inr e ↦ let positive = watched_least_count child children e in rw e (ground (arith, positive))
  ];
  views = bounded (child ∷ children) (least_count child children) _ (least_count-le child children);
}

-- The children that are written last for a container.
unfoldable pub last_group : ℕ → List (ℕ × List Child) → Option (List Child)
last_group container [] = none
last_group container ((key, children) ∷ groups) =
    found_or (last_group container groups) (if key == container then some children else none)

-- A state that follows from the children.
pub record IsDerivedFrom (children : List Child) (s : WatchState) : Type 0 where
  pub completed : s.completed ≡ all_watched children
  pub views : All (λ c. s.view_count ≤ c.view_count) children

-- What the states of a container are before and after, by the children that are written last.
abbrev pub IsDerived : Option (List Child) → Option WatchState → Option WatchState → Type 0
IsDerived none before after = after ≡ before
IsDerived (some children) before none = true ≡ false
IsDerived (some children) before (some s) = IsDerivedFrom children s

pub derived-IsDerivedFrom :
    (children : List Child) (observed_at : ℕ) (s : WatchState)
    → IsDerivedFrom children (derive (aggregate_completion children) observed_at s)
unfolding derive
derived-IsDerivedFrom children observed_at s =
    let h = aggregate_completion-IsAggregate children in
    record { completed = h.completed; views = h.views }
