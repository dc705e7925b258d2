-- ===== src/Watch/View.antt =====
-- The table of watch states as a map from items and sources, and what `_record_successes`
-- (sync/watch_sync.py) does to it.
use euvieouvi.Base.{
  ℕ, ◌≡◌, inl, inr, refl, true, ◌&&◌, Option, none, some, List, arith, find_first, find_first-some,
  All-tabulate, find_first-update_where, find_first-snoc, any-find_first, if◌then◌else◌, ◌==◌,
  Option-cases,
}
use euvieouvi.Watch.Rows.{WatchState, WatchSyncCandidate, has_state_key, put_state}
use euvieouvi.Watch.Record.{new_state, record_state, record_item}

-- The row of an item in a source.
abbrev pub state_at : List WatchState → ℕ → ℕ → Option WatchState
state_at states item source = find_first (has_state_key item source) states

state_at-key :
    (states : List WatchState) (item source : ℕ) (s : WatchState)
    → state_at states item source ≡ some s
    → has_state_key item source s ≡ true
state_at-key states item source s e =
    (find_first-some (λ _. Unit {0}) (has_state_key item source) states s e
      (All-tabulate states (λ _. tt))).1

-- What stands at a key that is put.
abbrev pub put : (WatchState → WatchState) → WatchState → Option WatchState → WatchState
put change new none = new
put change new (some s) = change s

-- Putting a row changes what stands at its own key and at no other.
pub put_state-state_at :
    (changed target : ℕ) (change : WatchState → WatchState) (new : WatchState)
    (states : List WatchState) (item source : ℕ)
    → ((s : WatchState) → has_state_key item source (change s) ≡ has_state_key item source s)
    → has_state_key item source new ≡ ((changed == item) && (target == source))
    → state_at (put_state changed target change new states) item source ≡ (
        if (item == changed) && (source == target)
        then some (put change new (state_at states item source))
        else state_at states item source)
unfolding put_state
put_state-state_at changed target change new states item source same fresh =
    let w = has_state_key changed target in
    let updated =
      find_first-update_where (has_state_key item source) w change states (λ s _. same s) in
    let added = find_first-snoc (has_state_key item source) states new in
    let exists = any-find_first w states in
    elim (Option-cases (state_at states item source)) [
      | inl e ↦ ground (arith, updated, added, fresh, exists, e)
      | inr (s, e) ↦
          let key = state_at-key states item source s e in
          ground (arith, updated, added, fresh, exists, e, key)
    ]

module _ (now : ℕ) (candidate : WatchSyncCandidate) where
  pub record_state-key :
      (item source : ℕ) (s : WatchState)
      → has_state_key item source (record_state now candidate s) ≡ has_state_key item source s
  unfolding record_state
  record_state-key item source s = ground arith

  -- What stands at the key of the candidate after it is put_recorded.
  abbrev pub put_recorded : ℕ → Option WatchState → WatchState
  put_recorded item = put (record_state now candidate) (new_state now candidate item)

  -- Recording an item changes its own row in the target and no other.
  pub record_item-state_at :
      (states : List WatchState) (changed item source : ℕ)
      → state_at (record_item now candidate states changed) item source ≡ (
          if (item == changed) && (source == candidate.target_source_id)
          then some (put_recorded changed (state_at states item source))
          else state_at states item source)
  unfolding record_item new_state
  record_item-state_at states changed item source =
      put_state-state_at changed candidate.target_source_id (record_state now candidate)
        (new_state now candidate changed) states item source (record_state-key item source) refl
