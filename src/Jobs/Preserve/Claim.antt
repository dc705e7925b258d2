-- ===== src/Jobs/Preserve/Claim.antt =====
-- Claiming keeps `IsConsistent`.
use native.Mathlib.Nat.{le_trans}
use euvieouvi.Base.{
  ℕ, ◌≤◌, ◌≡◌, inl, inr, String, true, false, List, arith, Bool-cases, All-map, count, update_where,
  count-update_where-le, any-false-All, any, Option-cases,
}
use euvieouvi.Jobs.Row.{JobRun, is_queued}
use euvieouvi.Jobs.Invariant.{
  IsSound, IsConsistent, IsQuiet, runs, same_id, update_where-IsQuiet, update_where-IsTame,
}
use euvieouvi.Jobs.Claim.{claim_row, is_claimable, claim_update, claim_next_job, pick}

claim_row-IsQuiet :
    (worker_id : String) (now : ℕ) (r : JobRun)
    → IsSound r
    → is_queued r.status ≡ true
    → IsQuiet (claim_row worker_id now) r
unfolding claim_row
claim_row-IsQuiet worker_id now r s e = ground (arith, s.queued_room e)

module _ (worker_id : String) (now candidate_id : ℕ) (rows : List JobRun)
    (h : IsConsistent rows) where
  quiet :
      (r : JobRun)
      → IsSound r
      → is_claimable candidate_id rows r ≡ true
      → IsQuiet (claim_row worker_id now) r
  quiet r s e = claim_row-IsQuiet worker_id now r s (ground arith)

  one_claimed :
      any runs rows ≡ false
      → count runs (update_where (is_claimable candidate_id rows) (claim_row worker_id now) rows)
        ≤ 1
  one_claimed idle =
      le_trans
        (count-update_where-le (same_id candidate_id) runs (is_claimable candidate_id rows)
          (claim_row worker_id now) rows (All-map rows (λ r s e _. ground arith) h.sound)
          (All-map rows (λ r q e t. absurd (ground arith)) (any-false-All runs rows idle)))
        (h.unique_ids candidate_id)

  pub claim_update-IsConsistent : IsConsistent (claim_update worker_id now candidate_id rows)
  unfolding claim_update
  claim_update-IsConsistent = elim (Bool-cases (any runs rows)) [
    | inl busy ↦
        update_where-IsTame (is_claimable candidate_id rows) (claim_row worker_id now) rows h
          (All-map rows (λ r s e. absurd (ground arith)) h.sound)
    | inr idle ↦
        update_where-IsQuiet (is_claimable candidate_id rows) (claim_row worker_id now) rows h
          (All-map rows quiet h.sound) (one_claimed idle)
  ]

pub claim_next_job-IsConsistent :
    (worker_id : String) (now : ℕ) (rows : List JobRun)
    → IsConsistent rows
    → IsConsistent (claim_next_job worker_id now rows).1
unfolding claim_next_job
claim_next_job-IsConsistent worker_id now rows h = elim (Option-cases (pick now rows)) [
  | inl e ↦ rw (e, claim_next_job) h
  | inr (c, e) ↦ rw (e, claim_next_job) (claim_update-IsConsistent worker_id now c.id rows h)
]
