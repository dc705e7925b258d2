-- ===== src/Tasks/Attempts.antt =====
-- How many executions the tasks have left before they are blocked: the measure of the loop of
-- `_execute` (sync/async_tasks.py).
use euvieouvi.Base.{
  ℕ, ◌+◌, ◌-◌, ◌≤◌, ◌<◌, ◌≡◌, inl, inr, String, Bool, true, List, [], ◌∷◌, arith, All, Bool-cases,
  count, update_where, delete_where, if◌then◌else◌,
}
use euvieouvi.Tasks.Row.{AsyncTask, is_blocked, is_processing, max_automatic_attempts}
use euvieouvi.Tasks.Queue.{claim_row, is_claimable, fail_row}
use euvieouvi.Tasks.Invariant.{IsSound}

-- The execution that is going on is no longer counted.
abbrev pub row_attempts_left : AsyncTask → ℕ
row_attempts_left t =
    if is_blocked t.status
    then 0
    else if is_processing t.status
    then max_automatic_attempts - 1 - t.attempts
    else max_automatic_attempts - t.attempts

unfoldable pub attempts_left : List AsyncTask → ℕ
attempts_left [] = 0
attempts_left (t ∷ tasks) = row_attempts_left t + attempts_left tasks

module _ (w : AsyncTask → Bool) (f : AsyncTask → AsyncTask) where
  pub attempts_left-update_where-le :
      (tasks : List AsyncTask)
      → All (λ t. w t ≡ true → row_attempts_left (f t) ≤ row_attempts_left t) tasks
      → attempts_left (update_where w f tasks) ≤ attempts_left tasks
  unfolding attempts_left update_where
  attempts_left-update_where-le [] h = omega arith
  attempts_left-update_where-le (t ∷ tasks) h =
      let rest = attempts_left-update_where-le tasks h.1 in
      elim (Bool-cases (w t)) [
        | inl e ↦ let first = h.0 e in rw e (omega (arith, first, rest))
        | inr e ↦ rw e (omega (arith, rest))
      ]

  pub attempts_left-update_where-lt :
      (tasks : List AsyncTask)
      → All (λ t. w t ≡ true → row_attempts_left (f t) < row_attempts_left t) tasks
      → attempts_left (update_where w f tasks) + count w tasks ≤ attempts_left tasks
  unfolding attempts_left update_where count
  attempts_left-update_where-lt [] h = omega arith
  attempts_left-update_where-lt (t ∷ tasks) h =
      let rest = attempts_left-update_where-lt tasks h.1 in
      elim (Bool-cases (w t)) [
        | inl e ↦ let first = h.0 e in rw e (omega (arith, first, rest))
        | inr e ↦ rw e (omega (arith, rest))
      ]

pub attempts_left-delete_where-le :
    (w : AsyncTask → Bool) (tasks : List AsyncTask)
    → attempts_left (delete_where w tasks) ≤ attempts_left tasks
unfolding attempts_left delete_where
attempts_left-delete_where-le w [] = omega arith
attempts_left-delete_where-le w (t ∷ tasks) =
    let rest = attempts_left-delete_where-le w tasks in
    elim (Bool-cases (w t)) [
      | inl e ↦ rw e (omega (arith, rest))
      | inr e ↦ rw e (omega (arith, rest))
    ]

pub claim_row-attempts :
    (task_id now : ℕ) (t : AsyncTask)
    → IsSound t
    → is_claimable task_id t ≡ true
    → row_attempts_left (claim_row now t) < row_attempts_left t
unfolding claim_row
claim_row-attempts task_id now t s hit = let room = s.room in ground arith

pub fail_row-attempts :
    (detail : String) (now : ℕ) (t : AsyncTask)
    → is_processing t.status ≡ true
    → row_attempts_left (fail_row detail now t) ≤ row_attempts_left t
unfolding fail_row
fail_row-attempts detail now t running = ground arith
