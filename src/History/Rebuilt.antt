-- ===== src/History/Rebuilt.antt =====
-- The table of watch states after `rebuild_container_watch_states` (sync/persistence.py).
use euvieouvi.Base.{
  ℕ, ◌≡◌, refl, subst, sym, Bool, true, false, Option, none, some, List, [], ◌∷◌, arith, found_or,
  if◌then◌else◌, ◌==◌,
}
use euvieouvi.Watch.Rows.{WatchState, put_state}
use euvieouvi.Watch.View.{state_at, put, put_state-state_at}
use euvieouvi.History.Containers.{Child, aggregate_completion, derive, derived_state, set_derived}
use euvieouvi.History.Derived.{last_group, IsDerivedFrom, IsDerived, derived-IsDerivedFrom}

module _ (source observed_at : ℕ) where
  -- One container is written.
  abbrev written : ℕ → List Child → List WatchState → List WatchState
  written container children states =
      let a = aggregate_completion children in
      put_state container source (derive a observed_at)
        (derived_state a observed_at container source) states

  written-state_at :
      (container : ℕ) (children : List Child) (states : List WatchState) (item : ℕ)
      → state_at (written container children states) item source ≡ (
          if item == container
          then some (
              put
                (derive (aggregate_completion children) observed_at)
                (derived_state (aggregate_completion children) observed_at container source)
                (state_at states item source))
          else state_at states item source)
  unfolding derive derived_state
  written-state_at container children states item =
      let a = aggregate_completion children in
      let here =
        put_state-state_at container source (derive a observed_at)
          (derived_state a observed_at container source) states item source (λ s. refl) refl in
      ground (arith, here)

  put-IsDerivedFrom :
      (container : ℕ) (children : List Child) (before : Option WatchState)
      → IsDerivedFrom children (
          put
            (derive (aggregate_completion children) observed_at)
            (derived_state (aggregate_completion children) observed_at container source)
            before)
  unfolding derived_state
  put-IsDerivedFrom container children none = derived-IsDerivedFrom children observed_at _
  put-IsDerivedFrom container children (some s) = derived-IsDerivedFrom children observed_at s

  written-IsDerived :
      (container : ℕ) (children : List Child) (states : List WatchState) (item : ℕ)
      (later : Option (List Child)) (b : Bool) (after : Option WatchState)
      → (container == item) ≡ b
      → IsDerived later (state_at (written container children states) item source) after
      → IsDerived
          (found_or later (if b then some children else none))
          (state_at states item source)
          after
  written-IsDerived container children states item (some cs) b none e h = h
  written-IsDerived container children states item (some cs) b (some s) e h = h
  written-IsDerived container children states item none true after e h =
      let now = written-state_at container children states item in
      let put_there : after
          ≡ some (
              put (derive (aggregate_completion children) observed_at)
                (derived_state (aggregate_completion children) observed_at container source)
                (state_at states item source)) =
        ground (arith, now, h, e) in
      subst (IsDerived (some children) (state_at states item source)) (sym put_there)
        (put-IsDerivedFrom container children (state_at states item source))
  written-IsDerived container children states item none false after e h =
      let now = written-state_at container children states item in ground (arith, now, h, e)

  pub set_derived-IsDerived :
      (groups : List (ℕ × List Child)) (states : List WatchState) (item : ℕ)
      → IsDerived
          (last_group item groups)
          (state_at states item source)
          (state_at (set_derived source observed_at groups states) item source)
  unfolding set_derived last_group
  set_derived-IsDerived [] states item = refl
  set_derived-IsDerived ((container, children) ∷ groups) states item =
      written-IsDerived container children states item (last_group item groups) (container == item)
        (state_at (set_derived source observed_at ((container, children) ∷ groups) states) item
          source)
        refl (set_derived-IsDerived groups (written container children states) item)
