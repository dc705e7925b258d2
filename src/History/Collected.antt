-- ===== src/History/Collected.antt =====
-- Which children `rebuild_container_watch_states` (sync/persistence.py) collects for the containers of
-- containers, counted by any test on them.
use euvieouvi.Base.{
  ℕ, ◌+◌, ◌≤◌, ◌≡◌, inl, inr, refl, sym, ap, ◌∙◌, Bool, true, false, Option, none, some, List, [],
  ◌∷◌, ◌++◌, arith, All, count, found_or, if◌then◌else◌, ◌==◌, Bool-cases,
}
use euvieouvi.Watch.Rows.{WatchState}
use euvieouvi.History.Row.{WatchEvent}
use euvieouvi.History.Containers.{
  Child, Playable, child_at, extend_group, add_child, group_children, add_top, group_tops,
}
use euvieouvi.History.Derived.{last_group}
use euvieouvi.History.Grouped.{keyed, extend_group-keyed, no_group}

count-++ : (q : Child → Bool) (xs ys : List Child) → count q (xs ++ ys) ≡ count q xs + count q ys
unfolding count
count-++ q [] ys = omega arith
count-++ q (x ∷ xs) ys = ground (arith, count-++ q xs ys)

abbrev pub is_selected : (ℕ → Bool) → Option ℕ → Bool
is_selected selected none = false
is_selected selected (some key) = selected key

-- The members that pass a test, in the groups of the selected keys.
unfoldable pub members_count : (Child → Bool) → (ℕ → Bool) → List (ℕ × List Child) → ℕ
members_count q selected [] = 0
members_count q selected ((key, members) ∷ groups) =
    (if selected key then count q members else 0) + members_count q selected groups

extend_group-members_count :
    (q : Child → Bool) (selected : ℕ → Bool) (key : ℕ) (children : List Child)
    (groups : List (ℕ × List Child))
    → members_count q selected (extend_group key children groups)
      ≡ members_count q selected groups + (if selected key then count q children else 0)
unfolding members_count extend_group
extend_group-members_count q selected key children [] = omega arith
extend_group-members_count q selected key children ((other, members) ∷ groups) =
    let rest = extend_group-members_count q selected key children groups in
    elim (Bool-cases (key == other)) [
      | inl e ↦
          let same : key ≡ other = ground arith in
          elim (Bool-cases (selected key)) [
            | inl s ↦
                let s' : selected other ≡ true = ap selected (sym same) ∙ s in
                rw (e, s, s') (omega (arith, count-++ q members children))
            | inr s ↦
                let s' : selected other ≡ false = ap selected (sym same) ∙ s in
                rw (e, s, s') (omega arith)
          ]
      | inr e ↦ rw e (omega (arith, rest))
    ]

module _ (source : ℕ) (events : List WatchEvent) (states : List WatchState) where
  -- The children among the rows whose parent is selected, in the order of the rows.
  unfoldable pub children_where : (ℕ → Bool) → List Playable → List Child
  children_where selected [] = []
  children_where selected (row ∷ rows) =
      let rest = children_where selected rows in
      if is_selected selected row.parent_id
      then child_at source events states row.id ∷ rest
      else rest

  group_children-members_count :
      (q : Child → Bool) (selected : ℕ → Bool) (rows : List Playable)
      (groups : List (ℕ × List Child))
      → members_count q selected (group_children source events states rows groups)
        ≡ members_count q selected groups + count q (children_where selected rows)
  unfolding group_children children_where count
  group_children-members_count q selected [] groups = omega arith
  group_children-members_count q selected (row ∷ rows) groups =
      added (λ gs. group_children-members_count q selected rows gs) row.parent_id
    where
      added :
          ((gs : List (ℕ × List Child))
            → members_count q selected (group_children source events states rows gs)
              ≡ members_count q selected gs + count q (children_where selected rows))
          → (parent : Option ℕ)
          → members_count q selected (
              group_children source events states rows
                (add_child source events states parent row.id groups))
            ≡ members_count q selected groups
              + count q (
                  if is_selected selected parent
                  then child_at source events states row.id ∷ children_where selected rows
                  else children_where selected rows)
      added later none = unfold add_child in later groups
      added later (some p) =
          let first =
            extend_group-members_count q selected p (child_at source events states row.id ∷ [])
              groups in
          let rest = later (extend_group p (child_at source events states row.id ∷ []) groups) in
          unfold add_child in ground (arith, first, rest)

group_tops-members_count :
    (q : Child → Bool) (selected : ℕ → Bool) (parent_of : ℕ → Option ℕ)
    (groups tops : List (ℕ × List Child))
    → members_count q selected (group_tops parent_of groups tops)
      ≡ members_count q selected tops
        + members_count q (λ p. is_selected selected (parent_of p)) groups
unfolding group_tops members_count
group_tops-members_count q selected parent_of [] tops = omega arith
group_tops-members_count q selected parent_of ((parent, children) ∷ groups) tops =
    added (λ ts. group_tops-members_count q selected parent_of groups ts) (parent_of parent)
  where
    added :
        ((ts : List (ℕ × List Child))
          → members_count q selected (group_tops parent_of groups ts)
            ≡ members_count q selected ts
              + members_count q (λ p. is_selected selected (parent_of p)) groups)
        → (top : Option ℕ)
        → members_count q selected (group_tops parent_of groups (add_top top children tops))
          ≡ members_count q selected tops
            + ((if is_selected selected top then count q children else 0)
                + members_count q (λ p. is_selected selected (parent_of p)) groups)
    added later none = let rest = later tops in unfold add_top in omega (arith, rest)
    added later (some t) =
        let first = extend_group-members_count q selected t children tops in
        let rest = later (extend_group t children tops) in
        unfold add_top in omega (arith, first, rest)

-- Each key has one group, and no group is empty.
abbrev pub is_filled : List Child → Bool
is_filled [] = false
is_filled (child ∷ children) = true

abbrev pub IsFilled : List (ℕ × List Child) → Type 0
IsFilled = All (λ g. is_filled g.1 ≡ true)

extend_group-IsFilled :
    (key : ℕ) (children : List Child) (groups : List (ℕ × List Child))
    → is_filled children ≡ true
    → IsFilled groups
    → IsFilled (extend_group key children groups)
unfolding extend_group
extend_group-IsFilled key children [] filled h = (filled, tt)
extend_group-IsFilled key children ((other, members) ∷ groups) filled h =
    elim (Bool-cases (key == other)) [
      | inl e ↦ rw e (more members, h.1)
      | inr e ↦ rw e (h.0, extend_group-IsFilled key children groups filled h.1)
    ]
  where
    more : (members : List Child) → is_filled (members ++ children) ≡ true
    more [] = filled
    more (child ∷ members) = refl

module _ (source : ℕ) (events : List WatchEvent) (states : List WatchState) where
  pub group_children-IsFilled :
      (rows : List Playable) (groups : List (ℕ × List Child))
      → IsFilled groups
      → IsFilled (group_children source events states rows groups)
  unfolding group_children add_child
  group_children-IsFilled [] groups h = h
  group_children-IsFilled (row ∷ rows) groups h =
      group_children-IsFilled rows (add_child source events states row.parent_id row.id groups)
        (added row.parent_id)
    where
      added : (parent : Option ℕ) → IsFilled (add_child source events states parent row.id groups)
      added none = h
      added (some p) =
          extend_group-IsFilled p (child_at source events states row.id ∷ []) groups refl h

pub group_tops-IsFilled :
    (parent_of : ℕ → Option ℕ) (groups tops : List (ℕ × List Child))
    → IsFilled groups
    → IsFilled tops
    → IsFilled (group_tops parent_of groups tops)
unfolding group_tops add_top
group_tops-IsFilled parent_of [] tops g h = h
group_tops-IsFilled parent_of ((parent, children) ∷ groups) tops g h =
    group_tops-IsFilled parent_of groups (add_top (parent_of parent) children tops) g.1
      (added (parent_of parent))
  where
    added : (top : Option ℕ) → IsFilled (add_top top children tops)
    added none = h
    added (some t) = extend_group-IsFilled t children tops g.0 h

pub group_tops-keyed :
    (parent_of : ℕ → Option ℕ) (container : ℕ) (groups tops : List (ℕ × List Child))
    → count (keyed container) tops ≤ 1
    → count (keyed container) (group_tops parent_of groups tops) ≤ 1
unfolding group_tops add_top
group_tops-keyed parent_of container [] tops few = few
group_tops-keyed parent_of container ((parent, children) ∷ groups) tops few =
    group_tops-keyed parent_of container groups (add_top (parent_of parent) children tops)
      (added (parent_of parent))
  where
    added : (top : Option ℕ) → count (keyed container) (add_top top children tops) ≤ 1
    added none = few
    added (some t) = extend_group-keyed t container children tops few

-- The children of the one group of a container.
abbrev pub members_of : Option (List Child) → List Child
members_of none = []
members_of (some children) = children

no_members :
    (q : Child → Bool) (container : ℕ) (groups : List (ℕ × List Child))
    → count (keyed container) groups ≡ 0
    → members_count q (λ key. key == container) groups ≡ 0
unfolding members_count count
no_members q container [] e = refl
no_members q container ((key, members) ∷ groups) e = ground (arith, no_members q container groups)

last_group-members_count :
    (q : Child → Bool) (container : ℕ) (groups : List (ℕ × List Child))
    → count (keyed container) groups ≤ 1
    → count q (members_of (last_group container groups))
      ≡ members_count q (λ key. key == container) groups
unfolding members_count count last_group
last_group-members_count q container [] few = refl
last_group-members_count q container ((key, members) ∷ groups) few =
    elim (Bool-cases (key == container)) [
      | inl e ↦
          let alone : count (keyed container) groups ≡ 0 = ground (arith, few, e) in
          let absent = no_group container groups alone in
          let nothing = no_members q container groups alone in
          rw (e, absent) (omega (arith, nothing))
      | inr e ↦
          let rest = last_group-members_count q container groups (ground (arith, few)) in
          rw e (same (last_group container groups) ∙ rest ∙ omega arith)
    ]
  where
    same :
        (o : Option (List Child)) → count q (members_of (found_or o none)) ≡ count q (members_of o)
    same none = refl
    same (some children) = refl

pub last_group-is_filled :
    (container : ℕ) (groups : List (ℕ × List Child)) (children : List Child)
    → IsFilled groups
    → last_group container groups ≡ some children
    → is_filled children ≡ true
unfolding last_group
last_group-is_filled container [] children h e = absurd (cc e)
last_group-is_filled container ((key, members) ∷ groups) children h e =
    found (last_group container groups) (last_group-is_filled container groups children h.1) e
  where
    found :
        (o : Option (List Child))
        → (o ≡ some children → is_filled children ≡ true)
        → found_or o (if key == container then some members else none) ≡ some children
        → is_filled children ≡ true
    found (some xs) rest e = rest e
    found none rest e = elim (Bool-cases (key == container)) [
      | inl hit ↦
          let same : some members ≡ some children = rw hit at e in
          let members_same : members ≡ children = cc same in ap is_filled (sym members_same) ∙ h.0
      | inr miss ↦ let nothing : none ≡ some children = rw miss at e in absurd (cc nothing)
    ]

-- The group of a container of containers has, for any test, as many members as there are rows in the
-- containers that it holds.
pub group_tops-count :
    (source : ℕ) (events : List WatchEvent) (states : List WatchState) (q : Child → Bool)
    (parent_of : ℕ → Option ℕ) (rows : List Playable) (container : ℕ)
    → count q (
        members_of (
          last_group container
            (group_tops parent_of (group_children source events states rows []) [])))
      ≡ count q (
          children_where source events states
            (λ p. is_selected (λ key. key == container) (parent_of p))
            rows)
unfolding members_count
group_tops-count source events states q parent_of rows container =
    let grouped = group_children source events states rows [] in
    let selected : ℕ → Bool = λ p. is_selected (λ key. key == container) (parent_of p) in
    let in_group =
      last_group-members_count q container (group_tops parent_of grouped [])
        (group_tops-keyed parent_of container grouped [] (unfold count in omega arith)) in
    let in_tops = group_tops-members_count q (λ key. key == container) parent_of grouped [] in
    let in_rows = group_children-members_count source events states q selected rows [] in
    omega (arith, in_group, in_tops, in_rows)
