-- ===== src/Watch/Persisted.antt =====
-- What stands in the table of watch states once a candidate is recorded (`_record_successes` of
-- sync/watch_sync.py).
use euvieouvi.Base.{
  ℕ, ◌≡◌, ◌≢◌, inl, inr, refl, ◌∙◌, Bool, true, false, Option, none, some, List, [], ◌∷◌, arith,
  any, ◌==◌, Bool-cases,
}
use euvieouvi.Watch.Rows.{WatchState, WatchSyncCandidate}
use euvieouvi.Watch.Record.{record_state, new_state, record_item, record_items}
use euvieouvi.Watch.View.{state_at, put_recorded, record_item-state_at}
use euvieouvi.Watch.Growth.{Grows, record_items-Grows}

-- The row is there and completed.
abbrev pub is_completed : Option WatchState → Bool
is_completed none = false
is_completed (some s) = s.completed

pub Grows-is_completed :
    (before after : Option WatchState)
    → Grows before after
    → is_completed before ≡ true
    → is_completed after ≡ true
Grows-is_completed none after h e = absurd (ground arith)
Grows-is_completed (some s) none h e = absurd (ground arith)
Grows-is_completed (some s) (some t) h e = let c = h.completed in ground arith

module _ (now : ℕ) (candidate : WatchSyncCandidate) where
  put_recorded-is_completed :
      (item : ℕ) (before : Option WatchState)
      → candidate.completed ≡ true
      → is_completed (some (put_recorded now candidate item before)) ≡ true
  unfolding new_state record_state
  put_recorded-is_completed item none e = e
  put_recorded-is_completed item (some s) e = rw e refl

  -- Every item of a completion is completed in the target once it is recorded.
  pub record_items-is_completed :
      (items : List ℕ) (states : List WatchState) (item : ℕ)
      → candidate.completed ≡ true
      → any (λ i. i == item) items ≡ true
      → is_completed
          (state_at (record_items now candidate states items) item candidate.target_source_id)
        ≡ true
  unfolding record_items any
  record_items-is_completed [] states item e m = absurd (ground arith)
  record_items-is_completed (changed ∷ items) states item e m =
      let target = candidate.target_source_id in
      let next = record_item now candidate states changed in
      elim (Bool-cases (changed == item)) [
        | inl same ↦
            let done = put_recorded-is_completed changed (state_at states item target) e in
            let after = record_item-state_at now candidate states changed item target in
            let here : is_completed (state_at next item target) ≡ true =
              ground (arith, after, done, same) in
            Grows-is_completed (state_at next item target)
              (state_at (record_items now candidate next items) item target)
              (record_items-Grows now candidate items next item target) here
        | inr differs ↦ record_items-is_completed items next item e (ground arith)
      ]

  -- The rows of another source are as they were.
  pub record_items-elsewhere :
      (items : List ℕ) (states : List WatchState) (item source : ℕ)
      → source ≢ candidate.target_source_id
      → state_at (record_items now candidate states items) item source ≡ state_at states item source
  unfolding record_items
  record_items-elsewhere [] states item source apart = refl
  record_items-elsewhere (changed ∷ items) states item source apart =
      let after = record_item-state_at now candidate states changed item source in
      let here : state_at (record_item now candidate states changed) item source
          ≡ state_at states item source =
        ground (arith, after, apart) in
      record_items-elsewhere items (record_item now candidate states changed) item source apart
      ∙ here
