-- ===== src/Jobs/Invariant.antt =====
-- What holds of the table of jobs between two transactions, and that each operation keeps it.
use euvieouvi.Base.{
  ℕ, ◌≤◌, ◌<◌, ◌≡◌, inl, inr, String, Bool, true, false, none, some, List, [], ◌∷◌, is_some, arith,
  ◌==◌, Bool-cases, All, All-map, All-both, All-update_where, find_first, none_of_count, count,
  update_where, count-update_where-le,
}
use native.Mathlib.Nat.{le_trans}
use euvieouvi.Jobs.Row.{JobRun, is_queued, is_running, is_active}
use euvieouvi.Jobs.Submit.{is_active_for}

-- One row. A queued row has an attempt left and no lease; a running row holds a lease and has
-- counted its attempt; a finished row has a time of finish and no lease. A row whose cancellation
-- was requested is not queued.
pub record IsSound (r : JobRun) : Type 0 where
  pub attempts : r.attempt_count ≤ r.max_attempts
  pub queued_room : is_queued r.status ≡ true → r.attempt_count < r.max_attempts
  pub queued_free : is_queued r.status ≡ true → r.lease_owner ≡ none
  pub running_owned : is_running r.status ≡ true → is_some r.lease_owner ≡ true
  pub running_leased : is_running r.status ≡ true → is_some r.lease_expires_at ≡ true
  pub running_counted : is_running r.status ≡ true → 0 < r.attempt_count
  pub finished_at : is_active r.status ≡ false → is_some r.finished_at ≡ true
  pub finished_free : is_active r.status ≡ false → r.lease_owner ≡ none
  pub cancelled : is_some r.cancel_requested_at ≡ true → is_queued r.status ≡ false

abbrev pub runs : JobRun → Bool
runs r = is_running r.status

abbrev pub same_id : ℕ → JobRun → Bool
same_id id r = r.id == id

-- The table: sound rows, at most one running, at most one active for each job, unique ids.
pub record IsConsistent (rows : List JobRun) : Type 0 where
  pub sound : All IsSound rows
  pub one_running : count runs rows ≤ 1
  pub one_active : (job_id : String) → count (is_active_for job_id) rows ≤ 1
  pub unique_ids : (id : ℕ) → count (same_id id) rows ≤ 1

pub empty-IsConsistent : IsConsistent []
unfolding count
empty-IsConsistent = record {
  sound = tt;
  one_running = omega arith;
  one_active = λ _. omega arith;
  unique_ids = λ _. omega arith;
}

-- A write to a row that keeps it sound, revives nothing, and leaves its identity.
pub record IsQuiet (f : JobRun → JobRun) (r : JobRun) : Type 0 where
  pub sound : IsSound (f r)
  pub revives_nothing : is_active (f r).status ≡ true → is_active r.status ≡ true
  pub keeps_job : (f r).job_id ≡ r.job_id
  pub keeps_id : (f r).id ≡ r.id

-- One that starts nothing either.
pub record IsTame (f : JobRun → JobRun) (r : JobRun) : Type 0 where
  pub quiet : IsQuiet f r
  pub starts_nothing : is_running (f r).status ≡ true → is_running r.status ≡ true

active_before :
    (job_id : String) (f : JobRun → JobRun) (r : JobRun)
    → IsQuiet f r
    → is_active_for job_id (f r) ≡ true
    → is_active_for job_id r ≡ true
unfolding is_active_for
active_before job_id f r q = rw q.keeps_job (ground (arith, q.revives_nothing))

id_before :
    (id : ℕ) (f : JobRun → JobRun) (r : JobRun)
    → IsQuiet f r
    → same_id id (f r) ≡ true
    → same_id id r ≡ true
id_before id f r q = ground (arith, q.keeps_id)

module _ (p : JobRun → Bool) (f : JobRun → JobRun) (rows : List JobRun)
    (h : IsConsistent rows) where
  -- A count of rows that the written rows do not join.
  count_kept :
      (q : JobRun → Bool)
      → All (λ r. p r ≡ true → q (f r) ≡ true → q r ≡ true) rows
      → count q rows ≤ 1
      → count q (update_where p f rows) ≤ 1
  count_kept q kept few =
      le_trans (count-update_where-le q q p f rows kept (All-map rows (λ r s e t. t) h.sound)) few

  pub update_where-IsQuiet :
      All (λ r. p r ≡ true → IsQuiet f r) rows
      → count runs (update_where p f rows) ≤ 1
      → IsConsistent (update_where p f rows)
  update_where-IsQuiet quiet one = record {
    sound =
        All-update_where p f rows (λ r s e. (s.1 e).sound) (λ r s e. s.0)
          (All-both _ _ rows h.sound quiet);
    one_running = one;
    one_active = λ job_id.
        count_kept (is_active_for job_id)
          (All-map rows (λ r q e. active_before job_id f r (q e)) quiet) (h.one_active job_id);
    unique_ids = λ id.
        count_kept (same_id id) (All-map rows (λ r q e. id_before id f r (q e)) quiet)
          (h.unique_ids id);
  }

  pub update_where-IsTame :
      All (λ r. p r ≡ true → IsTame f r) rows → IsConsistent (update_where p f rows)
  update_where-IsTame tame =
      update_where-IsQuiet (All-map rows (λ r t e. (t e).quiet) tame)
        (count_kept runs (All-map rows (λ r t e. (t e).starts_nothing) tame) h.one_running)

-- With unique ids, a row that has the id of the row found is that row.
pub same_row :
    (id : ℕ) (rows : List JobRun) (run : JobRun)
    → count (same_id id) rows ≤ 1
    → find_first (same_id id) rows ≡ some run
    → All (λ r. same_id id r ≡ true → r ≡ run) rows
unfolding count find_first
same_row id [] run few found = tt
same_row id (r ∷ rows) run few found = elim (Bool-cases (same_id id r)) [
  | inl e ↦
      let same : r ≡ run = ground arith in
      let alone : count (same_id id) rows ≡ 0 = ground arith in
      (
        (λ _. same),
        All-map rows (λ x no_x t. absurd (ground arith)) (none_of_count (same_id id) rows alone),
      )
  | inr e ↦ ((λ t. cc), same_row id rows run (ground arith) (ground arith))
]
