-- ===== src/Watch/Growth.antt =====
-- A watch state is never taken back by `_record_successes` (sync/watch_sync.py).
use euvieouvi.Base.{
  ℕ, ◌≤◌, ◌≡◌, ◌⊎◌, inl, inr, refl, subst, sym, true, false, ◌&&◌, Option, none, some, List, [],
  ◌∷◌, arith, if◌then◌else◌, ◌==◌, Bool-cases,
}
use euvieouvi.Watch.Rows.{WatchState, WatchSyncCandidate, has_state_key, put_state}
use euvieouvi.Watch.Record.{
  played_later, new_state, record_state, record_item, record_items, target_items, record_candidate,
  record_successes,
}
use euvieouvi.Watch.View.{state_at, put, put_state-state_at, record_state-key}

-- The first time is no later than the second; a time that is known stays known.
abbrev pub IsNotAfter : Option ℕ → Option ℕ → Type 0
IsNotAfter none b = Unit
IsNotAfter (some a) none = true ≡ false
IsNotAfter (some a) (some b) = a ≤ b

pub record IsLater (s t : WatchState) : Type 0 where
  pub completed : (s.completed ≡ false) ⊎ (t.completed ≡ true)
  pub views : s.view_count ≤ t.view_count
  pub played : IsNotAfter s.last_played_at t.last_played_at

-- From one content of the key to the next.
abbrev pub Grows : Option WatchState → Option WatchState → Type 0
Grows none after = Unit
Grows (some s) none = true ≡ false
Grows (some s) (some t) = IsLater s t

IsNotAfter-refl : (a : Option ℕ) → IsNotAfter a a
IsNotAfter-refl none = tt
IsNotAfter-refl (some a) = omega arith

IsNotAfter-trans : (a b c : Option ℕ) → IsNotAfter a b → IsNotAfter b c → IsNotAfter a c
IsNotAfter-trans none b c h k = tt
IsNotAfter-trans (some a) none c h k = absurd (ground arith)
IsNotAfter-trans (some a) (some b) none h k = k
IsNotAfter-trans (some a) (some b) (some c) h k = omega (arith, h, k)

pub Grows-refl : (before : Option WatchState) → Grows before before
Grows-refl none = tt
Grows-refl (some s) = record {
  completed = elim (Bool-cases s.completed) [ inl e ↦ inr e | inr e ↦ inl e ];
  views = omega arith;
  played = IsNotAfter-refl s.last_played_at;
}

IsLater-trans : (s t u : WatchState) → IsLater s t → IsLater t u → IsLater s u
IsLater-trans s t u h k = record {
  completed = let a = h.completed in let b = k.completed in ground arith;
  views = omega (arith, h.views, k.views);
  played = IsNotAfter-trans s.last_played_at t.last_played_at u.last_played_at h.played k.played;
}

pub Grows-trans : (a b c : Option WatchState) → Grows a b → Grows b c → Grows a c
Grows-trans none b c h k = tt
Grows-trans (some s) none c h k = absurd (ground arith)
Grows-trans (some s) (some t) none h k = k
Grows-trans (some s) (some t) (some u) h k = IsLater-trans s t u h k

-- Putting a row takes nothing back where the change does not.
pub put_state-Grows :
    (changed target : ℕ) (change : WatchState → WatchState) (new : WatchState)
    (states : List WatchState) (item source : ℕ)
    → ((s : WatchState) → has_state_key item source (change s) ≡ has_state_key item source s)
    → has_state_key item source new ≡ ((changed == item) && (target == source))
    → ((s : WatchState) → IsLater s (change s))
    → Grows
        (state_at states item source)
        (state_at (put_state changed target change new states) item source)
put_state-Grows changed target change new states item source same fresh later =
    subst (Grows (state_at states item source))
      (sym (put_state-state_at changed target change new states item source same fresh))
      (at_key (Bool-cases ((item == changed) && (source == target))))
  where
    grown : (o : Option WatchState) → Grows o (some (put change new o))
    grown none = tt
    grown (some s) = later s

    at_key :
        (((item == changed) && (source == target)) ≡ true)
          ⊎ (((item == changed) && (source == target)) ≡ false)
        → Grows (state_at states item source) (
            if (item == changed) && (source == target)
            then some (put change new (state_at states item source))
            else state_at states item source)
    at_key (inl e) = rw e (grown (state_at states item source))
    at_key (inr e) = rw e (Grows-refl (state_at states item source))

module _ (now : ℕ) (candidate : WatchSyncCandidate) where
  played_later-IsNotAfter : (new current : Option ℕ) → IsNotAfter current (played_later new current)
  unfolding played_later
  played_later-IsNotAfter none current = IsNotAfter-refl current
  played_later-IsNotAfter (some played) none = tt
  played_later-IsNotAfter (some played) (some current) = ground arith

  record_state-IsLater : (s : WatchState) → IsLater s (record_state now candidate s)
  unfolding record_state
  record_state-IsLater s =
      let played = played_later-IsNotAfter candidate.last_played_at s.last_played_at in
      elim (Bool-cases candidate.completed) [
        | inl e ↦ rw e (record { completed = inr refl; views = omega arith; played = played })
        | inr e ↦ elim (Bool-cases s.completed) [
          | inl done ↦
              rw (e, done) (record { completed = inr refl; views = omega arith; played = played })
          | inr not_yet ↦
              rw (e, not_yet)
                (record { completed = inl refl; views = omega arith; played = played })
        ]
      ]

  record_item-Grows :
      (states : List WatchState) (changed item source : ℕ)
      → Grows
          (state_at states item source)
          (state_at (record_item now candidate states changed) item source)
  unfolding record_item new_state
  record_item-Grows states changed item source =
      put_state-Grows changed candidate.target_source_id (record_state now candidate)
        (new_state now candidate changed) states item source
        (record_state-key now candidate item source) refl record_state-IsLater

  pub record_items-Grows :
      (items : List ℕ) (states : List WatchState) (item source : ℕ)
      → Grows
          (state_at states item source)
          (state_at (record_items now candidate states items) item source)
  unfolding record_items
  record_items-Grows [] states item source = Grows-refl (state_at states item source)
  record_items-Grows (changed ∷ items) states item source =
      Grows-trans (state_at states item source)
        (state_at (record_item now candidate states changed) item source)
        (state_at (record_items now candidate (record_item now candidate states changed) items) item
          source)
        (record_item-Grows states changed item source)
        (record_items-Grows items (record_item now candidate states changed) item source)

-- Recording successes takes nothing back: for every item and source, a completed state stays completed,
-- the count of views does not fall, and the time of the last playback does not go back.
pub record_successes-Grows :
    (now : ℕ) (candidates : List WatchSyncCandidate) (states : List WatchState) (item source : ℕ)
    → Grows
        (state_at states item source)
        (state_at (record_successes now states candidates) item source)
unfolding record_successes record_candidate
record_successes-Grows now [] states item source = Grows-refl (state_at states item source)
record_successes-Grows now (candidate ∷ candidates) states item source =
    Grows-trans (state_at states item source)
      (state_at (record_candidate now states candidate) item source)
      (state_at (record_successes now (record_candidate now states candidate) candidates) item
        source)
      (record_items-Grows now candidate (target_items candidate.targets) states item source)
      (record_successes-Grows now candidates (record_candidate now states candidate) item source)
