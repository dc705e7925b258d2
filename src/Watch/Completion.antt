-- ===== src/Watch/Completion.antt =====
-- How a run of `WatchSyncService` (sync/watch_sync.py) ends.
use euvieouvi.Base.{
  ℕ, ◌+◌, ◌≡◌, ◌⊎◌, inl, inr, refl, subst, sym, ap, ◌∙◌, Bool, true, false, not, Option, none, some,
  List, [], ◌∷◌, Memᴰ, arith, any, count, All, All-map, if◌then◌else◌, ◌==◌, Bool-cases,
}
use euvieouvi.Watch.Rows.{WatchSyncCandidate}
use euvieouvi.Watch.Round.{
  Round, Tables, Work, Settings, persist, try_candidate, with_repairs, update_progress,
}
use euvieouvi.Watch.Run.{
  show_progress, propagate, flush, new_work, move_settings, finish, conclude, run,
}
use euvieouvi.Watch.Saved.{IsSaved, IsKept, persist-IsSaved}
use euvieouvi.Watch.Outcome.{
  is_success, tried, tried-cases, IsCounted, add_success-IsCounted, add_failure-IsCounted,
}

repairs-IsCounted :
    (round : Round) (work after : Work)
    → IsCounted round (with_repairs (tried round work) work) after
    → IsCounted round work after
unfolding with_repairs
repairs-IsCounted round work after h = record {
  updated = h.updated;
  failures = h.failures;
  settings = h.settings;
  kept = λ c k. h.kept c k;
  queued = h.queued;
}

try_candidate-IsCounted :
    (round : Round) (work : Work) → IsCounted round work (try_candidate round work)
try_candidate-IsCounted round work = elim (tried-cases round work) [
  | inl (e, same) ↦ subst (IsCounted round work) (sym same) (
      repairs-IsCounted round work _
        (add_success-IsCounted round (with_repairs (tried round work) work) e))
  | inr (e, inl same) ↦ subst (IsCounted round work) (sym same) (add_failure-IsCounted round work e)
  | inr (e, inr same) ↦ subst (IsCounted round work) (sym same) (
      repairs-IsCounted round work _
        (add_failure-IsCounted round (with_repairs (tried round work) work) e))
]

-- What the rounds of a loop bring about.
record AreCounted (rounds : List Round) (work after : Work) : Type 0 where
  updated : after.updated ≡ work.updated + count is_success rounds
  failures : after.failures ≡ work.failures + count (λ r. not (is_success r)) rounds
  settings : after.tables.settings ≡ work.tables.settings
  kept : (c : WatchSyncCandidate) → IsKept work c → IsKept after c
  queued : All (λ r. (is_success r ≡ false) ⊎ IsKept after r.candidate) rounds

module _ (scanned skipped : ℕ) where
  AreCounted-cons :
      (round : Round) (rounds : List Round) (work after : Work)
      → IsCounted round work (try_candidate round work)
      → AreCounted rounds (show_progress scanned skipped (try_candidate round work)) after
      → AreCounted (round ∷ rounds) work after
  unfolding count show_progress update_progress
  AreCounted-cons round rounds work after first rest = record {
    updated = let a = first.updated in let b = rest.updated in ground arith;
    failures = let a = first.failures in let b = rest.failures in ground arith;
    settings = rest.settings ∙ first.settings;
    kept = λ c h. rest.kept c (first.kept c h);
    queued = (
      elim (first.queued) [ inl e ↦ inl e | inr h ↦ inr (rest.kept round.candidate h) ],
      rest.queued,
    );
  }

  propagate-AreCounted :
      (rounds : List Round) (work : Work)
      → All (λ r. r.cancelled ≡ false) rounds
      → (after : Work) × (propagate scanned skipped rounds work ≡ (after.tables, some after))
        × AreCounted rounds work after
  unfolding propagate
  propagate-AreCounted [] work on = (
    work,
    refl,
    record {
      updated = unfold count in omega arith;
      failures = unfold count in omega arith;
      settings = refl;
      kept = λ c h. h;
      queued = tt;
    },
  )
  propagate-AreCounted (round ∷ rounds) work on =
      let (after, ended, h) =
        propagate-AreCounted rounds (show_progress scanned skipped (try_candidate round work))
          on.1 in
      (
        after,
        ap
              (λ b.
                if b
                then (work.tables, none)
                else propagate scanned skipped rounds
                    (show_progress scanned skipped (try_candidate round work)))
              on.0
            ∙ ended,
        AreCounted-cons round rounds work after (try_candidate-IsCounted round work) h,
      )

propagate-cancelled :
    (scanned skipped : ℕ) (rounds : List Round) (work : Work)
    → any (λ r. r.cancelled) rounds ≡ true
    → (left : Tables) × (propagate scanned skipped rounds work ≡ (left, none))
      × (left.settings ≡ work.tables.settings)
unfolding propagate any show_progress update_progress
propagate-cancelled scanned skipped [] work on = absurd (ground arith)
propagate-cancelled scanned skipped (round ∷ rounds) work on = elim (Bool-cases round.cancelled) [
  | inl e ↦ (work.tables, ap (choose (work.tables, none)) e, refl)
  | inr e ↦
      let (left, ended, same) =
        propagate-cancelled scanned skipped rounds
          (show_progress scanned skipped (try_candidate round work)) (ground arith) in
      let first = try_candidate-IsCounted round work in
      (left, ap (choose (work.tables, none)) e ∙ ended, same ∙ first.settings)
]
  where
    choose : Tables × Option Work → Bool → Tables × Option Work
    choose stop b =
        if b
        then stop
        else propagate scanned skipped rounds
            (show_progress scanned skipped (try_candidate round work))

flush-IsSaved :
    (now : ℕ) (pending : List WatchSyncCandidate) (t : Tables) (c : WatchSyncCandidate)
    → IsSaved t.states c ⊎ Memᴰ c pending
    → IsSaved (flush now pending t).states c
unfolding flush
flush-IsSaved now [] t c (inl h) = h
flush-IsSaved now [] t c (inr m) = elim m [ ]
flush-IsSaved now (p ∷ pending) t c h = persist-IsSaved now (p ∷ pending) t c h

flush-settings :
    (now : ℕ) (pending : List WatchSyncCandidate) (t : Tables)
    → (flush now pending t).settings ≡ t.settings
unfolding flush persist
flush-settings now [] t = refl
flush-settings now (p ∷ pending) t = refl

-- The end of a run that was not cancelled: the counters, the settings and what is stored.
pub record IsComplete (rounds : List Round) (before after : Tables) (work : Work) (moved : Settings)
    : Type 0 where
  pub updated : work.updated ≡ count is_success rounds
  pub failures : work.failures ≡ count (λ r. not (is_success r)) rounds
  pub settings :
      after.settings
      ≡ (if count (λ r. not (is_success r)) rounds == 0 then moved else before.settings)
  pub saved : All (λ r. (is_success r ≡ false) ⊎ IsSaved after.states r.candidate) rounds

module _ (now scanned skipped : ℕ) (clear_pending : Bool) (incremental : Option Bool)
    (started : ℕ) where
  -- A run that is not cancelled ends: every candidate is counted once, as updated where its connector is
  -- there, no target fails and one answers, and as failed otherwise; every completion that succeeded is stored
  -- for all items of its targets, whatever the batches are; and the settings, with the start of the next
  -- incremental scan, move exactly when nothing failed.
  pub run-IsComplete :
      (rounds : List Round) (t : Tables)
      → All (λ r. r.cancelled ≡ false) rounds
      → (after : Tables) × (work : Work) × (run now scanned skipped clear_pending incremental
            started rounds t
          ≡ (after, some work))
        × IsComplete rounds t after work
            (move_settings clear_pending incremental started t.settings)
  unfolding run conclude finish new_work update_progress
  run-IsComplete rounds t on =
      let (work, ended, h) =
        propagate-AreCounted scanned skipped rounds (new_work scanned skipped t) on in
      let end = flush now work.pending_successes work.tables in
      let none_before : (new_work scanned skipped t).updated + count is_success rounds
          ≡ count is_success rounds =
        omega arith in
      let no_failures : (new_work scanned skipped t).failures
            + count (λ r. not (is_success r)) rounds
          ≡ count (λ r. not (is_success r)) rounds =
        omega arith in
      let same = flush-settings now work.pending_successes work.tables in
      (
        finish now scanned skipped clear_pending incremental started work.updated work.failures end,
        work,
        ap (conclude now scanned skipped clear_pending incremental started) ended,
        record {
          updated = h.updated ∙ none_before;
          failures = h.failures ∙ no_failures;
          settings = moved work.failures (same ∙ h.settings) (h.failures ∙ no_failures);
          saved = All-map rounds (λ r k. stored work r k) h.queued;
        },
      )
    where
      moved :
          {end before : Settings} {n : ℕ} (failures : ℕ)
          → end ≡ before
          → failures ≡ n
          → (if failures == 0 then move_settings clear_pending incremental started end else end)
            ≡ (if n == 0 then move_settings clear_pending incremental started before else before)
      moved failures e k = cc (e, k)

      stored :
          (work : Work) (r : Round)
          → (is_success r ≡ false) ⊎ IsKept work r.candidate
          → (is_success r ≡ false)
            ⊎ IsSaved (flush now work.pending_successes work.tables).states r.candidate
      stored work r (inl e) = inl e
      stored work r (inr k) =
          inr (flush-IsSaved now work.pending_successes work.tables r.candidate k)

  -- A run that is cancelled before one of its candidates reports no result and leaves the settings as they
  -- are, the times of the last scans and the mark of pending work among them.
  pub run-cancelled :
      (rounds : List Round) (t : Tables)
      → any (λ r. r.cancelled) rounds ≡ true
      → ((run now scanned skipped clear_pending incremental started rounds t).1 ≡ none)
        × ((run now scanned skipped clear_pending incremental started rounds t).0.settings
            ≡ t.settings)
  unfolding run conclude new_work update_progress
  run-cancelled rounds t on =
      let (left, ended, same) =
        propagate-cancelled scanned skipped rounds (new_work scanned skipped t) on in
      rw ended (refl, same)
