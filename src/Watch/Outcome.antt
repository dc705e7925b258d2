-- ===== src/Watch/Outcome.antt =====
-- What a run of `WatchSyncService` (sync/watch_sync.py) stores, counts and leaves in the settings.
use euvieouvi.Base.{
  ℕ, ◌+◌, ◌≡◌, ◌⊎◌, inl, inr, refl, Bool, true, false, not, ◌&&◌, List, [], ◌∷◌, Memᴰ, arith, any,
  count, if◌then◌else◌, ◌==◌, leb, length, Bool-cases,
}
use euvieouvi.Watch.Rows.{WatchSyncTarget, WatchSyncCandidate, SourceMediaRef}
use euvieouvi.Watch.Record.{invalidate_reference}
use euvieouvi.Watch.Round.{
  as_number, Answer, done, not_found, failed, Round, Work, Attempt, attempt, persist,
  persist_batch_size, add_success, add_failure, with_repairs, after_attempt, try_candidate,
}
use euvieouvi.Watch.Saved.{IsSaved, IsKept, queue, queued-IsKept, Memᴰ-snoc, Memᴰ-last}

abbrev pub is_done : Answer → Bool
is_done done = true
is_done _ = false

abbrev pub is_failed : Answer → Bool
is_failed failed = true
is_failed _ = false

-- A candidate succeeds when its connector is there, no target fails and one of them answers.
unfoldable pub is_success : Round → Bool
is_success round =
    round.connected
    && not (any (λ t. is_failed (round.answer t)) round.candidate.targets)
    && any (λ t. is_done (round.answer t)) round.candidate.targets

Answer-cases : (a : Answer) → (a ≡ done) ⊎ ((a ≡ not_found) ⊎ (a ≡ failed))
Answer-cases done = inl refl
Answer-cases not_found = inr (inl refl)
Answer-cases failed = inr (inr refl)

module _ (now : ℕ) (answer : WatchSyncTarget → Answer) where
  attempt-completed :
      (targets : List WatchSyncTarget) (n repaired : ℕ) (refs : List SourceMediaRef)
      → (attempt now answer targets n repaired refs).completed
        ≡ not (any (λ t. is_failed (answer t)) targets)
  unfolding attempt any
  attempt-completed [] n repaired refs = refl
  attempt-completed (t ∷ targets) n repaired refs = elim (Answer-cases (answer t)) [
    | inl a ↦ rw a (attempt-completed targets _ _ _)
    | inr (inl a) ↦ rw a (attempt-completed targets _ _ _)
    | inr (inr a) ↦ rw a refl
  ]

  attempt-successful :
      (targets : List WatchSyncTarget) (n repaired : ℕ) (refs : List SourceMediaRef)
      → (attempt now answer targets n repaired refs).completed ≡ true
      → (attempt now answer targets n repaired refs).successful
        ≡ n + count (λ t. is_done (answer t)) targets
  unfolding attempt count
  attempt-successful [] n repaired refs e = omega arith
  attempt-successful (t ∷ targets) n repaired refs e = elim (Answer-cases (answer t)) [
    | inl a ↦
        let k : (attempt now answer targets (n + 1) repaired refs).completed ≡ true = rw a at e in
        let ih = attempt-successful targets (n + 1) repaired refs k in rw a (omega (arith, ih))
    | inr (inl a) ↦
        let (was, refs') = invalidate_reference now t.reference_id refs in
        let k : (attempt now answer targets n (repaired + as_number was) refs').completed ≡ true =
          rw a at e in
        let ih = attempt-successful targets n (repaired + as_number was) refs' k in
        rw a (omega (arith, ih))
    | inr (inr a) ↦ let k : false ≡ true = rw a at e in absurd (ground arith)
  ]

any_iff_count :
    (answer : WatchSyncTarget → Answer) (targets : List WatchSyncTarget)
    → not (count (λ t. is_done (answer t)) targets == 0) ≡ any (λ t. is_done (answer t)) targets
unfolding any count
any_iff_count answer [] = refl
any_iff_count answer (t ∷ targets) = ground (arith, any_iff_count answer targets)

module _ (round : Round) (work : Work) where
  -- The loop over the targets of the round.
  abbrev pub tried : Attempt
  tried =
      attempt round.now round.answer round.candidate.targets 0 work.repaired work.tables.references

  pub tried-cases :
      ((is_success round ≡ true)
        × (try_candidate round work ≡ add_success round (with_repairs tried work)))
      ⊎ ((is_success round ≡ false)
          × ((try_candidate round work ≡ add_failure work)
              ⊎ (try_candidate round work ≡ add_failure (with_repairs tried work))))
  unfolding try_candidate after_attempt is_success
  tried-cases =
      let ended =
        attempt-completed round.now round.answer round.candidate.targets 0 work.repaired
          work.tables.references in
      let counted = any_iff_count round.answer round.candidate.targets in
      elim (Bool-cases round.connected) [
        | inr off ↦ inr (ground arith, inl (rw off refl))
        | inl on ↦ elim (Bool-cases tried.completed) [
          | inr stopped ↦ inr (ground arith, inr (rw (on, stopped) refl))
          | inl all ↦
              let total =
                attempt-successful round.now round.answer round.candidate.targets 0 work.repaired
                  work.tables.references all in
              let same : not (tried.successful == 0)
                  ≡ any (λ t. is_done (round.answer t)) round.candidate.targets =
                ground arith in
              elim (Bool-cases (any (λ t. is_done (round.answer t)) round.candidate.targets)) [
                | inl some_done ↦ inl (ground arith, rw (on, all, same, some_done) refl)
                | inr none_done ↦ inr (ground arith, inr (rw (on, all, same, none_done) refl))
              ]
        ]
      ]

-- A round either succeeds, and its candidate is queued, or is counted as a failure.
pub record IsCounted (round : Round) (work after : Work) : Type 0 where
  pub updated : after.updated ≡ work.updated + (if is_success round then 1 else 0)
  pub failures : after.failures ≡ work.failures + (if is_success round then 0 else 1)
  pub settings : after.tables.settings ≡ work.tables.settings
  pub kept : (c : WatchSyncCandidate) → IsKept work c → IsKept after c
  pub queued : (is_success round ≡ false) ⊎ IsKept after round.candidate

pub add_success-IsCounted :
    (round : Round) (work : Work)
    → is_success round ≡ true
    → IsCounted round work (add_success round work)
unfolding add_success persist
add_success-IsCounted round work e = record {
  updated = ground arith;
  failures = ground arith;
  settings =
      elim (Bool-cases (leb persist_batch_size (length (queue round work round.candidate)))) [
        | inl f ↦ rw f refl
        | inr f ↦ rw f refl
      ];
  kept = λ c h. queued-IsKept round work c (move c h);
  queued = inr (
      queued-IsKept round work round.candidate
        (inr (Memᴰ-last round.candidate work.pending_successes)));
}
  where
    move :
        (c : WatchSyncCandidate)
        → IsKept work c
        → IsSaved work.tables.states c ⊎ Memᴰ c (queue round work c)
    move c (inl h) = inl h
    move c (inr m) = inr (Memᴰ-snoc c round.candidate work.pending_successes m)

pub add_failure-IsCounted :
    (round : Round) (work : Work)
    → is_success round ≡ false
    → IsCounted round work (add_failure work)
unfolding add_failure
add_failure-IsCounted round work e = record {
  updated = ground arith;
  failures = ground arith;
  settings = refl;
  kept = λ c h. h;
  queued = inl e;
}
