-- ===== src/Tasks/Drain.antt =====
-- The drain loop ends, with nothing left that is due.
use native.Mathlib.Nat.{pow-suc}
use euvieouvi.Base.{
  ℕ, zero, suc, ◌^◌, ◌-◌, ◌≤◌, ◌<◌, ◌≡◌, ◌⊎◌, inl, inr, refl, String, true, false, none, some, List,
  arith, Bool-cases, Option-cases, All, All-map, All-Memᴰ, All-both, All-where_, All-order_by,
  All-of_order_by, All-of_where_, All-update_where, Memᴰ, count, count-none, count-pos, unique-row,
  find_first-some, find_first-none, update_where, where_, order_by, ◌==◌, min,
}
use euvieouvi.Tasks.Row.{AsyncTask, is_pending, is_processing}
use euvieouvi.Tasks.Queue.{
  is_due, earlier, first_due, claim_due, claim_row, is_claimable, has_id, is_settled, has_successor,
  promote, finish_success, fail_row, finish_failure, retry_delay,
}
use euvieouvi.Tasks.Attempts.{
  attempts_left, attempts_left-update_where-le, attempts_left-update_where-lt,
  attempts_left-delete_where-le, claim_row-attempts, fail_row-attempts,
}
use euvieouvi.Tasks.Invariant.{IsSound, IsConsistent}

power_pos : (n : ℕ) → 0 < 2 ^ n
power_pos zero = omega arith
power_pos (suc n) = rw pow-suc (omega (arith, power_pos n))

-- The pause after a failure lies between fifteen seconds and an hour.
pub task_retry_delay_bounds :
    (attempts : ℕ) → (15 ≤ retry_delay attempts) × (retry_delay attempts ≤ 3600)
unfolding retry_delay
task_retry_delay_bounds attempts = (omega (arith, power_pos (min (attempts - 1) 8)), omega arith)

module _ (now : ℕ) (tasks : List AsyncTask) where
  first_due-some :
      (t : AsyncTask) → first_due now tasks ≡ some t → Memᴰ t tasks × (is_due now t ≡ true)
  unfolding first_due
  first_due-some t e =
      (find_first-some (λ r. Memᴰ r tasks × (is_due now r ≡ true)) (λ _. true)
        (order_by earlier (where_ (is_due now) tasks)) t e
        (All-order_by earlier _ (where_ (is_due now) tasks)
          (All-where_ _ (is_due now) tasks (All-Memᴰ tasks)))).0

  first_due-none : first_due now tasks ≡ none → count (is_due now) tasks ≡ 0
  unfolding first_due
  first_due-none e = count-none (is_due now) tasks (
      All-map tasks (λ t h. not_due t h)
        (All-of_where_ _ (is_due now) tasks
          (All-of_order_by earlier _ (where_ (is_due now) tasks) (find_first-none _ _ e))))
    where
      not_due : (t : AsyncTask) → (is_due now t ≡ true → true ≡ false) → is_due now t ≡ false
      not_due t h = elim (Bool-cases (is_due now t)) [ inl e ↦ cc (h e) | inr e ↦ e ]

-- A claim: either nothing is due and nothing changes, or a due row is in execution, without a
-- successor, and fewer attempts are left.
pub record Claimed (now : ℕ) (tasks : List AsyncTask) (task_id : ℕ) : Type 0 where
  pub answer : (claim_due now tasks).0 ≡ some task_id
  pub fewer : attempts_left (claim_due now tasks).1 < attempts_left tasks
  pub running :
      All (λ t. has_id task_id t ≡ true → is_processing t.status ≡ true) (claim_due now tasks).1
  pub alone : All (λ t. has_id task_id t ≡ true → t.pending_payload ≡ none) (claim_due now tasks).1

module _ (now : ℕ) (tasks : List AsyncTask) (h : IsConsistent tasks) (t : AsyncTask)
    (listed : Memᴰ t tasks) (due : is_due now t ≡ true) where
  abbrev claimed : List AsyncTask
  claimed = update_where (is_claimable t.id) (claim_row now) tasks

  was_pending : is_pending t.status ≡ true
  unfolding is_due
  was_pending = ground arith

  -- A row that the UPDATE passes by has another id.
  missed :
      (x : AsyncTask)
      → (has_id t.id x ≡ true → x ≡ t)
      → is_claimable t.id x ≡ false
      → has_id t.id x ≡ false
  missed x only e = elim (Bool-cases (has_id t.id x)) [
    | inl same ↦
        let p : is_pending x.status ≡ true = rw (only same) was_pending in absurd (ground arith)
    | inr other ↦ other
  ]

  claim_due-Claimed : first_due now tasks ≡ some t → Claimed now tasks t.id
  unfolding claim_due claim_row is_due
  claim_due-Claimed e =
      let hit : is_claimable t.id t ≡ true = ground (arith, was_pending) in
      let changed = count-pos (is_claimable t.id) tasks t listed hit in
      let only = unique-row (has_id t.id) tasks t (h.unique_ids t.id) listed (ground arith) in
      record {
        answer = rw (e, claim_due) (ground arith);
        fewer =
            rw (e, claim_due)
              (omega (
                arith,
                changed,
                attempts_left-update_where-lt (is_claimable t.id) (claim_row now) tasks
                    (All-map tasks (λ x s. claim_row-attempts t.id now x s) h.sound),
              ));
        running =
            rw (e, claim_due)
              (All-update_where (is_claimable t.id) (claim_row now) tasks (λ x _ _ _. refl)
                (λ x k miss same. absurd (cc (missed x k miss))) only);
        alone =
            rw (e, claim_due)
              (All-update_where (is_claimable t.id) (claim_row now) tasks
                (λ x s hit _. no_successor x s hit)
                (λ x k miss same. absurd (cc (missed x k.1 miss)))
                (All-both _ _ tasks h.sound only));
      }
    where
      no_successor :
          (x : AsyncTask)
          → IsSound x × (has_id t.id x ≡ true → x ≡ t)
          → is_claimable t.id x ≡ true
          → x.pending_payload ≡ none
      no_successor x s hit = let sound = s.0 in ground arith

pub claim_cases :
    (now : ℕ) (tasks : List AsyncTask)
    → IsConsistent tasks
    → ((claim_due now tasks ≡ (none, tasks)) × (count (is_due now) tasks ≡ 0))
      ⊎ ((task_id : ℕ) × Claimed now tasks task_id)
unfolding claim_due
claim_cases now tasks h = elim (Option-cases (first_due now tasks)) [
  | inl e ↦ inl (rw (e, claim_due), first_due-none now tasks e)
  | inr (t, e) ↦
      let (listed, due) = first_due-some now tasks t e in
      inr (t.id, claim_due-Claimed now tasks h t listed due e)
]

pub finish_failure-attempts :
    (now task_id : ℕ) (tasks : List AsyncTask) (detail : String)
    → All (λ t. has_id task_id t ≡ true → is_processing t.status ≡ true) tasks
    → attempts_left (finish_failure task_id detail now tasks) ≤ attempts_left tasks
unfolding finish_failure
finish_failure-attempts now task_id tasks detail running =
    attempts_left-update_where-le (has_id task_id) (fail_row detail now) tasks
      (All-map tasks (λ t r hit. fail_row-attempts detail now t (r hit)) running)

pub finish_success-attempts :
    (now task_id : ℕ) (tasks : List AsyncTask)
    → All (λ t. has_id task_id t ≡ true → t.pending_payload ≡ none) tasks
    → attempts_left (finish_success task_id now tasks) ≤ attempts_left tasks
unfolding finish_success
finish_success-attempts now task_id tasks alone =
    elim (Bool-cases (0 == count (is_settled task_id) tasks)) [
      | inl e ↦ rw e (
          attempts_left-update_where-le (has_successor task_id) (promote now) tasks
            (All-map tasks (λ t a hit. absurd (ground arith)) alone))
      | inr e ↦ rw e (attempts_left-delete_where-le (is_settled task_id) tasks)
    ]
