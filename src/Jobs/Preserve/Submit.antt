-- ===== src/Jobs/Preserve/Submit.antt =====
-- Submitting keeps `IsConsistent`, whatever states its reads of the table see.
use euvieouvi.Base.{
  ℕ, ◌≤◌, ◌<◌, ◌≡◌, inl, inr, subst, String, false, not, some, List, [], ◌∷◌, ◌++◌, arith,
  Bool-cases, Option-cases, All, All-map, All-snoc, count, count-snoc, count-none,
  any-false_iff_count, ◌==◌, str_eq, eq_iff,
}
use euvieouvi.Jobs.Row.{JobRun, SyncTrigger, is_job}
use euvieouvi.Jobs.Invariant.{IsSound, IsConsistent, IsTame, runs, same_id, update_where-IsTame}
use euvieouvi.Jobs.Submit.{
  is_active_for, has_active, next_id, new_run, insert_run, set_log_filename, submit_job,
}

-- The new id is larger than every id of the table.
ids-lt-next_id : (rows : List JobRun) → All (λ r. r.id < next_id rows) rows
unfolding next_id
ids-lt-next_id [] = tt
ids-lt-next_id (r ∷ rows) = (omega arith, All-map rows (λ x h. omega arith) (ids-lt-next_id rows))

new_run-IsSound :
    (id : ℕ) (job_id : String) (trigger : SyncTrigger) (max_attempts now : ℕ)
    → 0 < max_attempts
    → IsSound (new_run id job_id trigger max_attempts now)
unfolding new_run
new_run-IsSound id job_id trigger max_attempts now h = ground arith

set_log_filename-IsTame : (id : ℕ) (r : JobRun) → IsSound r → IsTame (set_log_filename id) r
unfolding set_log_filename
set_log_filename-IsTame id r s = ground arith

module _ (job_id : String) (trigger : SyncTrigger) (max_attempts now : ℕ) (rows : List JobRun)
    (h : IsConsistent rows) (enough : 0 < max_attempts)
    (free : has_active job_id rows ≡ false) where
  abbrev run : JobRun
  run = new_run (next_id rows) job_id trigger max_attempts now

  one_active : (other : String) → count (is_active_for other) (rows ++ run ∷ []) ≤ 1
  unfolding has_active new_run is_active_for
  one_active other = elim (Bool-cases (str_eq job_id other)) [
    | inl e ↦
        let same : job_id ≡ other = (eq_iff job_id other).0 e in
        let idle = any-false_iff_count (is_active_for job_id) rows free in
        ground (arith, count-snoc (is_active_for other) rows run, idle, same)
    | inr e ↦ ground (arith, count-snoc (is_active_for other) rows run, h.one_active other)
  ]

  unique_ids : (id : ℕ) → count (same_id id) (rows ++ run ∷ []) ≤ 1
  unfolding new_run
  unique_ids id = elim (Bool-cases (next_id rows == id)) [
    | inl e ↦
        let fresh =
          count-none (same_id id) rows
            (All-map rows (λ r below. ground arith) (ids-lt-next_id rows)) in
        ground (arith, count-snoc (same_id id) rows run)
    | inr e ↦ ground (arith, count-snoc (same_id id) rows run, h.unique_ids id)
  ]

  insertion-IsConsistent : IsConsistent (rows ++ run ∷ [])
  insertion-IsConsistent = record {
    sound =
        All-snoc IsSound rows run h.sound
          (new_run-IsSound (next_id rows) job_id trigger max_attempts now enough);
    one_running = unfold new_run in ground (arith, count-snoc runs rows run, h.one_running);
    one_active = one_active;
    unique_ids = unique_ids;
  }

pub insert_run-IsConsistent :
    (job_id : String) (trigger : SyncTrigger) (max_attempts now : ℕ) (rows : List JobRun)
    {rows' : List JobRun}
    → 0 < max_attempts
    → IsConsistent rows
    → insert_run job_id trigger max_attempts now rows ≡ some rows'
    → IsConsistent rows'
unfolding insert_run
insert_run-IsConsistent job_id trigger max_attempts now rows enough h e =
    elim (Bool-cases (has_active job_id rows)) [
      | inl busy ↦ absurd (ground arith)
      | inr free ↦
          subst IsConsistent (ground arith)
            (insertion-IsConsistent job_id trigger max_attempts now rows h enough free)
    ]

pub submit_job-IsConsistent :
    (job_id : String) (trigger : SyncTrigger) (max_attempts now : ℕ)
    (seen_before rows seen_after : List JobRun)
    → 0 < max_attempts
    → IsConsistent rows
    → IsConsistent (submit_job job_id trigger max_attempts now seen_before rows seen_after).1
unfolding submit_job
submit_job-IsConsistent job_id trigger max_attempts now seen_before rows seen_after enough h =
    elim (Bool-cases (not (is_job job_id))) [
      | inl e ↦ rw e h
      | inr e ↦ rw e (elim (Bool-cases (has_active job_id seen_before)) [
        | inl e' ↦ rw e' h
        | inr e' ↦ rw e' (elim (Option-cases (insert_run job_id trigger max_attempts now rows)) [
          | inl f ↦ rw f h
          | inr (rows', f) ↦
              let k = insert_run-IsConsistent job_id trigger max_attempts now rows enough h f in
              rw f (
                update_where-IsTame (λ r. r.id == next_id rows) (set_log_filename (next_id rows))
                  rows' k
                  (All-map rows' (λ r s e. set_log_filename-IsTame (next_id rows) r s) k.sound))
        ])
      ])
    ]
