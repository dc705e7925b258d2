-- ===== src/Jobs/Outcome.antt =====
-- What `submit_job` answers, and what it leaves in the table.
use euvieouvi.Base.{
  ℕ, ◌≡◌, ◌≢◌, ◌⊎◌, inl, inr, String, true, false, List, [], ◌∷◌, ◌++◌, Bool-cases, ◌==◌,
  update_where,
}
use euvieouvi.Jobs.Row.{JobRun, SyncTrigger, is_job}
use euvieouvi.Jobs.Submit.{
  Submission, created, has_active, next_id, new_run, insert_run, set_log_filename, submit_job,
}

module _ (job_id : String) (trigger : SyncTrigger) (max_attempts now : ℕ)
    (seen_before rows seen_after : List JobRun) where
  abbrev pub submission : Submission × List JobRun
  submission = submit_job job_id trigger max_attempts now seen_before rows seen_after

  abbrev pub with_run : List JobRun
  with_run = rows ++ new_run (next_id rows) job_id trigger max_attempts now ∷ []

  -- A row is created exactly when the job exists and neither the first read nor the table at the
  -- commit has an active row for it; the table then gains that one row, named after its id. In every
  -- other case the table stays as it is.
  pub submit_job-created_iff :
      ((is_job job_id ≡ true)
        × (has_active job_id seen_before ≡ false)
        × (has_active job_id rows ≡ false)
        × (submission ≡ (
          created,
          update_where (λ r. r.id == next_id rows) (set_log_filename (next_id rows)) with_run,
        )))
      ⊎ (((is_job job_id ≡ false)
            ⊎ ((has_active job_id seen_before ≡ true) ⊎ (has_active job_id rows ≡ true)))
          × (submission.0 ≢ created)
          × (submission.1 ≡ rows))
  unfolding submit_job insert_run
  submit_job-created_iff = elim (Bool-cases (is_job job_id)) [
    | inl known ↦ elim (Bool-cases (has_active job_id seen_before)) [
      | inl seen ↦ inr (inr (inl seen), rw (known, seen) (λ e. cc), rw (known, seen))
      | inr unseen ↦ elim (Bool-cases (has_active job_id rows)) [
        | inl busy ↦ elim (Bool-cases (has_active job_id seen_after)) [
          | inl raced ↦
              inr (
                inr (inr busy),
                rw (known, unseen, busy, raced) (λ e. cc),
                rw (known, unseen, busy),
              )
          | inr gone ↦
              inr
                (inr (inr busy), rw (known, unseen, busy, gone) (λ e. cc), rw (known, unseen, busy))
        ]
        | inr free ↦ inl (known, unseen, free, rw (known, unseen, free))
      ]
    ]
    | inr unknown ↦ inr (inl unknown, rw unknown (λ e. cc), rw unknown)
  ]
