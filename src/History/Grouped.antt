-- ===== src/History/Grouped.antt =====
-- The groups that `rebuild_container_watch_states` (sync/persistence.py) collects.
use euvieouvi.Base.{
  ℕ, ◌≤◌, ◌≡◌, inl, inr, refl, subst, sym, ap, ◌∙◌, Bool, false, Option, none, some, List, [], ◌∷◌,
  ◌++◌, arith, count, found_or, if◌then◌else◌, ◌==◌, some_or, Bool-cases,
}
use mathlib.Core.List.{append_assoc}
use euvieouvi.Watch.Rows.{WatchState}
use euvieouvi.Watch.View.{state_at}
use euvieouvi.History.Row.{WatchEvent}
use euvieouvi.History.Containers.{
  Child, Playable, child_at, extend_group, add_child, group_children, group_tops, set_derived,
  rebuild_container_watch_states,
}
use euvieouvi.History.Derived.{last_group, IsDerived}
use euvieouvi.History.Rebuilt.{set_derived-IsDerived}

-- The groups of one key.
abbrev pub keyed : ℕ → ℕ × List Child → Bool
keyed key (other, members) = other == key

pub extend_group-keyed :
    (key container : ℕ) (children : List Child) (groups : List (ℕ × List Child))
    → count (keyed container) groups ≤ 1
    → count (keyed container) (extend_group key children groups) ≤ 1
unfolding extend_group count
extend_group-keyed key container children [] few = ground arith
extend_group-keyed key container children ((other, members) ∷ groups) few =
    let rest = extend_group-keyed key container children groups in
    ground (arith, rest, no_new groups)
  where
    no_new :
        (groups : List (ℕ × List Child))
        → (key == container) ≡ false
        → count (keyed container) (extend_group key children groups)
          ≡ count (keyed container) groups
    no_new [] e = ground arith
    no_new ((other, members) ∷ groups) e = ground (arith, no_new groups e)

abbrev pub is_in : Option ℕ → ℕ → Bool
is_in none container = false
is_in (some parent) container = parent == container

pub no_group :
    (container : ℕ) (groups : List (ℕ × List Child))
    → count (keyed container) groups ≡ 0
    → last_group container groups ≡ none
unfolding last_group count
no_group container [] e = refl
no_group container ((other, members) ∷ groups) e = ground (arith, no_group container groups)

last_group-extend_group :
    (key container : ℕ) (children : List Child) (groups : List (ℕ × List Child))
    → count (keyed container) groups ≤ 1
    → last_group container (extend_group key children groups) ≡ (
        if key == container
        then some (some_or (last_group container groups) [] ++ children)
        else last_group container groups)
unfolding last_group extend_group count
last_group-extend_group key container children [] few = ground arith
last_group-extend_group key container children ((other, members) ∷ groups) few =
    let rest = last_group-extend_group key container children groups in
    let alone = no_group container groups in ground (arith, rest, alone)

module _ (source : ℕ) (events : List WatchEvent) (states : List WatchState) where
  -- The children of a container among the rows, in their order.
  unfoldable pub children_of : ℕ → List Playable → List Child
  children_of container [] = []
  children_of container (row ∷ rows) =
      let rest = children_of container rows in
      if is_in row.parent_id container then child_at source events states row.id ∷ rest else rest

  -- A group with more children; none is made for no children.
  abbrev extended : Option (List Child) → List Child → Option (List Child)
  extended group [] = group
  extended group (child ∷ children) = some (some_or group [] ++ child ∷ children)

  extended-snoc :
      (members : List Child) (child : Child) (children : List Child)
      → extended (some (members ++ child ∷ [])) children ≡ some (members ++ child ∷ children)
  extended-snoc members child [] = refl
  extended-snoc members child (next ∷ children) =
      ap some (append_assoc members (child ∷ []) (next ∷ children))

  add_child-last_group :
      (container : ℕ) (parent : Option ℕ) (item : ℕ) (rows : List Playable)
      (groups : List (ℕ × List Child))
      → count (keyed container) groups ≤ 1
      → extended
          (last_group container (add_child source events states parent item groups))
          (children_of container rows)
        ≡ extended (last_group container groups) (
            if is_in parent container
            then child_at source events states item ∷ children_of container rows
            else children_of container rows)
  unfolding add_child
  add_child-last_group container none item rows groups few = refl
  add_child-last_group container (some parent) item rows groups few =
      let child = child_at source events states item in
      let grown = last_group-extend_group parent container (child ∷ []) groups few in
      elim (Bool-cases (parent == container)) [
        | inl e ↦
            ap (λ g. extended g (children_of container rows))
              (grown
                ∙ ap
                    (λ b.
                      if b
                      then some (some_or (last_group container groups) [] ++ child ∷ [])
                      else last_group container groups)
                    e)
            ∙ extended-snoc (some_or (last_group container groups) []) child
                (children_of container rows)
            ∙ ap
                (λ b.
                  extended (last_group container groups)
                    (if b then child ∷ children_of container rows else children_of container rows))
                (sym e)
        | inr e ↦
            ap (λ g. extended g (children_of container rows))
              (grown
                ∙ ap
                    (λ b.
                      if b
                      then some (some_or (last_group container groups) [] ++ child ∷ [])
                      else last_group container groups)
                    e)
            ∙ ap
                (λ b.
                  extended (last_group container groups)
                    (if b then child ∷ children_of container rows else children_of container rows))
                (sym e)
      ]

  add_child-keyed :
      (container : ℕ) (parent : Option ℕ) (item : ℕ) (groups : List (ℕ × List Child))
      → count (keyed container) groups ≤ 1
      → count (keyed container) (add_child source events states parent item groups) ≤ 1
  unfolding add_child
  add_child-keyed container none item groups few = few
  add_child-keyed container (some parent) item groups few =
      extend_group-keyed parent container (child_at source events states item ∷ []) groups few

  pub group_children-last_group :
      (container : ℕ) (rows : List Playable) (groups : List (ℕ × List Child))
      → count (keyed container) groups ≤ 1
      → last_group container (group_children source events states rows groups)
        ≡ extended (last_group container groups) (children_of container rows)
  unfolding group_children children_of
  group_children-last_group container [] groups few = refl
  group_children-last_group container (row ∷ rows) groups few =
      group_children-last_group container rows
        (add_child source events states row.parent_id row.id groups)
        (add_child-keyed container row.parent_id row.id groups few)
      ∙ add_child-last_group container row.parent_id row.id rows groups few

-- What was written last for a container decides.
IsDerived-then :
    (first second : Option (List Child)) (before middle after : Option WatchState)
    → IsDerived first before middle
    → IsDerived second middle after
    → IsDerived (found_or second first) before after
IsDerived-then first (some children) before middle none h k = k
IsDerived-then first (some children) before middle (some s) h k = k
IsDerived-then first none before middle after h k = subst (IsDerived first before) (sym k) h

-- The children that decide on a container: those collected from the containers in it, where it holds some,
-- and otherwise its own.
abbrev pub deciding_group : Option (List Child) → List Child → Option (List Child)
deciding_group (some children) own = some children
deciding_group none [] = none
deciding_group none (child ∷ own) = some (child ∷ own)

pub groups-IsDerived :
    (source observed_at : ℕ) (parent_of : ℕ → Option ℕ) (playable : List Playable)
    (events : List WatchEvent) (states : List WatchState) (container : ℕ)
    → IsDerived
        (deciding_group
          (last_group container
            (group_tops parent_of (group_children source events states playable []) []))
          (children_of source events states container playable))
        (state_at states container source)
        (state_at
          (rebuild_container_watch_states source observed_at parent_of playable events states)
          container
          source)
unfolding rebuild_container_watch_states
groups-IsDerived source observed_at parent_of playable events states container =
    let grouped = group_children source events states playable [] in
    let tops = group_tops parent_of grouped [] in
    let middle = set_derived source observed_at grouped states in
    let own =
      group_children-last_group source events states container playable [] (none_yet container) in
    let both =
      IsDerived-then (last_group container grouped) (last_group container tops)
        (state_at states container source) (state_at middle container source)
        (state_at (set_derived source observed_at tops middle) container source)
        (set_derived-IsDerived source observed_at grouped states container)
        (set_derived-IsDerived source observed_at tops middle container) in
    subst
      (λ o.
        IsDerived o (state_at states container source)
          (state_at (set_derived source observed_at tops middle) container source))
      (ap (found_or (last_group container tops)) own
        ∙ same (last_group container tops) (children_of source events states container playable))
      both
  where
    none_yet : (container : ℕ) → count (keyed container) [] ≤ 1
    none_yet container = unfold count in omega arith

    same :
        (tops : Option (List Child)) (children : List Child)
        → found_or tops (extended source events states (last_group container []) children)
          ≡ deciding_group tops children
    same (some cs) children = refl
    same none [] = unfold last_group in refl
    same none (child ∷ children) = unfold last_group in refl
