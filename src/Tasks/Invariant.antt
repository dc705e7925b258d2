-- ===== src/Tasks/Invariant.antt =====
-- What holds of the table of tasks between two transactions, and that each statement keeps it.
use native.Mathlib.Nat.{le_trans}
use euvieouvi.Base.{
  ℕ, ◌≤◌, ◌<◌, ◌≡◌, inl, inr, String, Bool, true, false, List, [], ◌∷◌, ◌++◌, is_some, arith,
  Bool-cases, Option-cases, All, All-map, All-both, All-snoc, All-update_where, All-delete_where,
  any, count, count-snoc, count-none, any-false_iff_count, count-update_where-le,
  count-delete_where-le, update_where, delete_where, ◌==◌, str_eq, eq_iff,
}
use euvieouvi.Tasks.Row.{
  AsyncTask, Payload, is_pending, is_processing, is_blocked, has_key, max_automatic_attempts,
}
use euvieouvi.Tasks.Queue.{
  requeue, next_id, new_task, enqueue, claim_due, claim_row, is_claimable, first_due, has_id,
  is_settled, has_successor, promote, finish_success, fail_row, finish_failure, retry_row,
  retry_all, recover_row, recover_async_tasks,
}

-- Only a task in execution has a successor. A task has failed fewer times than the limit, until it
-- is blocked, at the limit.
pub record IsSound (t : AsyncTask) : Type 0 where
  pub successor : is_some t.pending_payload ≡ true → is_processing t.status ≡ true
  pub room : is_blocked t.status ≡ false → t.attempts < max_automatic_attempts
  pub exhausted : is_blocked t.status ≡ true → t.attempts ≡ max_automatic_attempts

pub record IsConsistent (tasks : List AsyncTask) : Type 0 where
  pub sound : All IsSound tasks
  pub unique_keys : (key : String) → count (has_key key) tasks ≤ 1
  pub unique_ids : (id : ℕ) → count (has_id id) tasks ≤ 1

pub empty-IsConsistent : IsConsistent []
unfolding count
empty-IsConsistent = record {
  sound = tt;
  unique_keys = λ _. omega arith;
  unique_ids = λ _. omega arith;
}

-- A write that keeps a row sound and leaves its key and id.
record IsTame (f : AsyncTask → AsyncTask) (t : AsyncTask) : Type 0 where
  sound : IsSound (f t)
  keeps_key : (f t).dedup_key ≡ t.dedup_key
  keeps_id : (f t).id ≡ t.id

key_before :
    (key : String) (f : AsyncTask → AsyncTask) (t : AsyncTask)
    → IsTame f t
    → has_key key (f t) ≡ true
    → has_key key t ≡ true
key_before key f t tame = rw tame.keeps_key (λ e. e)

id_before :
    (id : ℕ) (f : AsyncTask → AsyncTask) (t : AsyncTask)
    → IsTame f t
    → has_id id (f t) ≡ true
    → has_id id t ≡ true
id_before id f t tame = ground (arith, tame.keeps_id)

module _ (p : AsyncTask → Bool) (f : AsyncTask → AsyncTask) (tasks : List AsyncTask)
    (h : IsConsistent tasks) where
  count_kept :
      (q : AsyncTask → Bool)
      → All (λ t. p t ≡ true → q (f t) ≡ true → q t ≡ true) tasks
      → count q tasks ≤ 1
      → count q (update_where p f tasks) ≤ 1
  count_kept q kept few =
      le_trans (count-update_where-le q q p f tasks kept (All-map tasks (λ t s e k. k) h.sound)) few

  update_where-IsTame :
      All (λ t. p t ≡ true → IsTame f t) tasks → IsConsistent (update_where p f tasks)
  update_where-IsTame tame = record {
    sound =
        All-update_where p f tasks (λ t s e. (s.1 e).sound) (λ t s e. s.0)
          (All-both _ _ tasks h.sound tame);
    unique_keys = λ key.
        count_kept (has_key key) (All-map tasks (λ t k e. key_before key f t (k e)) tame)
          (h.unique_keys key);
    unique_ids = λ id.
        count_kept (has_id id) (All-map tasks (λ t k e. id_before id f t (k e)) tame)
          (h.unique_ids id);
  }

delete_where-IsConsistent :
    (p : AsyncTask → Bool) (tasks : List AsyncTask)
    → IsConsistent tasks
    → IsConsistent (delete_where p tasks)
delete_where-IsConsistent p tasks h = record {
  sound = All-delete_where IsSound p tasks h.sound;
  unique_keys = λ key. le_trans (count-delete_where-le (has_key key) p tasks) (h.unique_keys key);
  unique_ids = λ id. le_trans (count-delete_where-le (has_id id) p tasks) (h.unique_ids id);
}

module _ (now : ℕ) (t : AsyncTask) (s : IsSound t) where
  requeue-IsTame : (payload : Payload) → IsTame (requeue payload now) t
  unfolding requeue
  requeue-IsTame payload = ground arith

  claim_row-IsTame : is_pending t.status ≡ true → IsTame (claim_row now) t
  unfolding claim_row
  claim_row-IsTame e = ground arith

  promote-IsTame : IsTame (promote now) t
  unfolding promote
  promote-IsTame = ground arith

  fail_row-IsTame :
      (detail : String) → is_processing t.status ≡ true → IsTame (fail_row detail now) t
  unfolding fail_row
  fail_row-IsTame detail e = ground arith

  retry_row-IsTame : is_processing t.status ≡ false → IsTame (retry_row now) t
  unfolding retry_row
  retry_row-IsTame e = ground arith

recover_row-IsTame :
    (t : AsyncTask) → IsSound t → is_processing t.status ≡ true → IsTame recover_row t
unfolding recover_row
recover_row-IsTame t s e = ground arith

ids-lt-next_id : (tasks : List AsyncTask) → All (λ t. t.id < next_id tasks) tasks
unfolding next_id
ids-lt-next_id [] = tt
ids-lt-next_id (t ∷ tasks) =
    (omega arith, All-map tasks (λ x h. omega arith) (ids-lt-next_id tasks))

module _ (key : String) (payload : Payload) (now : ℕ) (tasks : List AsyncTask)
    (h : IsConsistent tasks) (absent : any (has_key key) tasks ≡ false) where
  abbrev task : AsyncTask
  task = new_task (next_id tasks) key payload now

  insertion-IsConsistent : IsConsistent (tasks ++ task ∷ [])
  unfolding new_task
  insertion-IsConsistent = record {
    sound = All-snoc IsSound tasks task h.sound (ground arith);
    unique_keys = λ other. elim (Bool-cases (str_eq key other)) [
      | inl e ↦
          let same : key ≡ other = (eq_iff key other).0 e in
          let no_other = any-false_iff_count (has_key key) tasks absent in
          ground (arith, count-snoc (has_key other) tasks task, no_other, same)
      | inr e ↦ ground (arith, count-snoc (has_key other) tasks task, h.unique_keys other)
    ];
    unique_ids = λ id. elim (Bool-cases (next_id tasks == id)) [
      | inl e ↦
          let fresh =
            count-none (has_id id) tasks
              (All-map tasks (λ t below. ground arith) (ids-lt-next_id tasks)) in
          ground (arith, count-snoc (has_id id) tasks task)
      | inr e ↦ ground (arith, count-snoc (has_id id) tasks task, h.unique_ids id)
    ];
  }

module _ (tasks : List AsyncTask) (h : IsConsistent tasks) where
  pub enqueue-IsConsistent :
      (key : String) (payload : Payload) (now : ℕ) → IsConsistent (enqueue key payload now tasks)
  unfolding enqueue
  enqueue-IsConsistent key payload now = elim (Bool-cases (any (has_key key) tasks)) [
    | inl known ↦ rw known (
        update_where-IsTame (has_key key) (requeue payload now) tasks h
          (All-map tasks (λ t s e. requeue-IsTame now t s payload) h.sound))
    | inr absent ↦ rw absent (insertion-IsConsistent key payload now tasks h absent)
  ]

  pub claim_due-IsConsistent : (now : ℕ) → IsConsistent (claim_due now tasks).1
  unfolding claim_due
  claim_due-IsConsistent now = elim (Option-cases (first_due now tasks)) [
    | inl e ↦ rw (e, claim_due) h
    | inr (c, e) ↦
        rw (e, claim_due)
          (update_where-IsTame (is_claimable c.id) (claim_row now) tasks h
            (All-map tasks (λ t s k. claim_row-IsTame now t s (ground arith)) h.sound))
  ]

  pub finish_success-IsConsistent :
      (task_id now : ℕ) → IsConsistent (finish_success task_id now tasks)
  unfolding finish_success
  finish_success-IsConsistent task_id now =
      elim (Bool-cases (0 == count (is_settled task_id) tasks)) [
        | inl e ↦ rw e (
            update_where-IsTame (has_successor task_id) (promote now) tasks h
              (All-map tasks (λ t s k. promote-IsTame now t s) h.sound))
        | inr e ↦ rw e (delete_where-IsConsistent (is_settled task_id) tasks h)
      ]

  pub finish_failure-IsConsistent :
      (task_id : ℕ) (detail : String) (now : ℕ)
      → All (λ t. has_id task_id t ≡ true → is_processing t.status ≡ true) tasks
      → IsConsistent (finish_failure task_id detail now tasks)
  unfolding finish_failure
  finish_failure-IsConsistent task_id detail now running =
      update_where-IsTame (has_id task_id) (fail_row detail now) tasks h (
        All-map tasks (λ t s e. fail_row-IsTame now t s.0 detail (s.1 e))
          (All-both _ _ tasks h.sound running))

  pub retry_all-IsConsistent : (now : ℕ) → IsConsistent (retry_all now tasks)
  unfolding retry_all
  retry_all-IsConsistent now =
      update_where-IsTame _ (retry_row now) tasks h
        (All-map tasks (λ t s e. retry_row-IsTame now t s (ground arith)) h.sound)

  pub recover_async_tasks-IsConsistent : IsConsistent (recover_async_tasks tasks).1
  unfolding recover_async_tasks
  recover_async_tasks-IsConsistent =
      update_where-IsTame _ recover_row tasks h (All-map tasks recover_row-IsTame h.sound)
