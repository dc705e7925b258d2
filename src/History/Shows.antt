-- ===== src/History/Shows.antt =====
-- What a rebuild makes of the state of a container, by the episodes and tracks in it and in the containers
-- that it holds: `rebuild_container_watch_states` of sync/persistence.py.
use euvieouvi.Base.{
  ℕ, ◌≤◌, ◌≡◌, refl, sym, subst, ◌∙◌, Bool, true, false, not, ◌&&◌, Option, none, some, List, [],
  ◌∷◌, arith, All, any, count, ◌==◌, ltb,
}
use euvieouvi.Watch.Rows.{WatchState}
use euvieouvi.Watch.View.{state_at}
use euvieouvi.History.Row.{WatchEvent}
use euvieouvi.History.Containers.{
  Child, Playable, group_children, group_tops, rebuild_container_watch_states,
}
use euvieouvi.History.Derived.{last_group, all_watched, IsDerived}
use euvieouvi.History.Grouped.{is_in, children_of, deciding_group, groups-IsDerived}
use euvieouvi.History.Collected.{
  is_selected, children_where, is_filled, members_of, group_children-IsFilled, group_tops-IsFilled,
  last_group-is_filled, group_tops-count,
}

-- Lists of the same children in any order.
abbrev SameCounts : List Child → List Child → Type 0
SameCounts xs ys = (q : Child → Bool) → count q xs ≡ count q ys

unwatched :
    (children : List Child)
    → any (λ c. c.view_count == 0) children ≡ not (0 == count (λ c. c.view_count == 0) children)
unfolding any count
unwatched [] = ground arith
unwatched (child ∷ children) = ground (arith, unwatched children)

all_watched-count :
    (children : List Child)
    → all_watched children
      ≡ (not (0 == count (λ c. true) children) && (0 == count (λ c. c.view_count == 0) children))
all_watched-count [] = unfold count in ground arith
all_watched-count (child ∷ children) =
    let zeros = unwatched (child ∷ children) in
    let some_child : (0 == count (λ c. true) (child ∷ children)) ≡ false =
      unfold count in ground arith in
    ground (arith, zeros, some_child)

all_watched-same : (xs ys : List Child) → SameCounts xs ys → all_watched xs ≡ all_watched ys
all_watched-same xs ys same =
    let all_same = same (λ c. true) in
    let zeros_same = same (λ c. c.view_count == 0) in
    ground (arith, all_watched-count xs, all_watched-count ys, all_same, zeros_same)

none_below :
    (least : ℕ) (children : List Child)
    → All (λ c. least ≤ c.view_count) children
    → count (λ c. ltb c.view_count least) children ≡ 0
unfolding count
none_below least [] h = refl
none_below least (child ∷ children) h =
    let first = h.0 in let rest = none_below least children h.1 in ground (arith, first, rest)

All_of_none_below :
    (least : ℕ) (children : List Child)
    → count (λ c. ltb c.view_count least) children ≡ 0
    → All (λ c. least ≤ c.view_count) children
unfolding count
All_of_none_below least [] e = tt
All_of_none_below least (child ∷ children) e =
    (ground arith, All_of_none_below least children (ground arith))

IsDerived-same :
    (xs ys : List Child) (before after : Option WatchState)
    → SameCounts xs ys
    → IsDerived (some xs) before after
    → IsDerived (some ys) before after
IsDerived-same xs ys before none same h = h
IsDerived-same xs ys before (some s) same h = record {
  completed = h.completed ∙ all_watched-same xs ys same;
  views =
      All_of_none_below s.view_count ys
        (sym (same (λ c. ltb c.view_count s.view_count)) ∙ none_below s.view_count xs h.views);
}

-- The children that decide on a container: those in the containers that it holds, where there are some, and
-- otherwise its own.
abbrev pub deciding : List Child → List Child → Option (List Child)
deciding [] [] = none
deciding [] (child ∷ own) = some (child ∷ own)
deciding (child ∷ within) own = some (child ∷ within)

no_child :
    (child : Child) (children : List Child)
    → count {A = Child} (λ c. true) [] ≡ count (λ c. true) (child ∷ children)
    → true ≡ false
unfolding count
no_child child children e = absurd (omega (arith, e))

deciding-same :
    (group : Option (List Child)) (within own : List Child) (before after : Option WatchState)
    → SameCounts (members_of group) within
    → ((children : List Child) → group ≡ some children → is_filled children ≡ true)
    → IsDerived (deciding_group group own) before after
    → IsDerived (deciding within own) before after
deciding-same none [] [] before after same filled h = h
deciding-same none [] (child ∷ own) before after same filled h = h
deciding-same none (child ∷ within) own before after same filled h =
    absurd (cc (no_child child within (same (λ c. true))))
deciding-same (some []) within own before after same filled h = absurd (cc (filled [] refl))
deciding-same (some (x ∷ xs)) [] own before after same filled h =
    absurd (cc (no_child x xs (sym (same (λ c. true)))))
deciding-same (some (x ∷ xs)) (child ∷ within) own before after same filled h =
    IsDerived-same (x ∷ xs) (child ∷ within) before after same h

own_row :
    (container : ℕ) (parent : Option ℕ)
    → is_in parent container ≡ is_selected (λ p. p == container) parent
own_row container none = refl
own_row container (some p) = refl

own_children :
    (source : ℕ) (events : List WatchEvent) (states : List WatchState) (container : ℕ)
    (rows : List Playable)
    → children_of source events states container rows
      ≡ children_where source events states (λ p. p == container) rows
unfolding children_of children_where
own_children source events states container [] = refl
own_children source events states container (row ∷ rows) =
    rw (own_row container row.parent_id, own_children source events states container rows) refl

-- After a rebuild every container follows from the available episodes and tracks: from those in the
-- containers that it holds, as a show from the episodes of its seasons, where there are some, and otherwise
-- from its own. It is completed exactly when each of them is watched, and none was watched less often than
-- the container; a container without any stays as it was.
pub rebuilt-IsDerived :
    (source observed_at : ℕ) (parent_of : ℕ → Option ℕ) (playable : List Playable)
    (events : List WatchEvent) (states : List WatchState) (container : ℕ)
    → IsDerived
        (deciding
          (children_where source events states
            (λ p. is_selected (λ key. key == container) (parent_of p))
            playable)
          (children_where source events states (λ p. p == container) playable))
        (state_at states container source)
        (state_at
          (rebuild_container_watch_states source observed_at parent_of playable events states)
          container
          source)
rebuilt-IsDerived source observed_at parent_of playable events states container =
    let grouped = group_children source events states playable [] in
    let tops = group_tops parent_of grouped [] in
    let within =
      children_where source events states (λ p. is_selected (λ key. key == container) (parent_of p))
        playable in
    subst
      (λ own. IsDerived (deciding within own) (state_at states container source) (
        state_at
          (rebuild_container_watch_states source observed_at parent_of playable events states)
          container source))
      (own_children source events states container playable)
      (deciding-same (last_group container tops) within
        (children_of source events states container playable) (state_at states container source)
        (state_at
          (rebuild_container_watch_states source observed_at parent_of playable events states)
          container source)
        (λ q. group_tops-count source events states q parent_of playable container)
        (λ children. last_group-is_filled container tops children (
          group_tops-IsFilled parent_of grouped []
            (group_children-IsFilled source events states playable [] tt) tt))
        (groups-IsDerived source observed_at parent_of playable events states container))
