-- ===== src/Tasks/View.antt =====
-- The queue as its clients see it: for each key, the newest payload that is still to be applied.
use euvieouvi.Base.{
  ℕ, ◌≡◌, inl, inr, refl, String, Bool, true, Option, none, some, List, [], ◌∷◌, some_or, arith,
  Bool-cases, Option-cases, find_first, update_where, if◌then◌else◌,
}
use euvieouvi.Tasks.Row.{AsyncTask, Payload, has_key}
use euvieouvi.Tasks.Queue.{
  claim_due, claim_row, is_claimable, first_due, has_id, promote, fail_row, finish_failure,
  retry_row, retry_all, recover_row, recover_async_tasks,
}

-- The payload that an execution after this one would apply.
unfoldable pub latest : AsyncTask → Payload
latest t = some_or t.pending_payload t.payload

abbrev pub find_key : String → List AsyncTask → Option AsyncTask
find_key key tasks = find_first (has_key key) tasks

unfoldable pub view : String → List AsyncTask → Option Payload
view key tasks = elim (find_key key tasks) [ none ↦ none | some t ↦ some (latest t) ]

-- A write that keeps the key of a row and its newest payload.
pub record IsSilent (f : AsyncTask → AsyncTask) (t : AsyncTask) : Type 0 where
  pub keeps_key : (f t).dedup_key ≡ t.dedup_key
  pub keeps_latest : latest (f t) ≡ latest t

pub view-cons :
    (key : String) (t : AsyncTask) (tasks : List AsyncTask)
    → view key (t ∷ tasks) ≡ (if has_key key t then some (latest t) else view key tasks)
unfolding view find_first
view-cons key t tasks = ground arith

pub view-update_where :
    (key : String) (p : AsyncTask → Bool) (f : AsyncTask → AsyncTask) (tasks : List AsyncTask)
    → ((t : AsyncTask) → p t ≡ true → IsSilent f t)
    → view key (update_where p f tasks) ≡ view key tasks
unfolding update_where
view-update_where key p f [] silent = refl
view-update_where key p f (t ∷ tasks) silent = elim (Bool-cases (p t)) [
  | inl e ↦
      let s = silent t e in
      rw (
        e,
        view-cons,
        view-cons,
        s.keeps_latest,
        s.keeps_key,
        view-update_where key p f tasks silent,
      )
  | inr e ↦ rw (e, view-cons, view-cons, view-update_where key p f tasks silent)
]

module _ (now : ℕ) (t : AsyncTask) where
  claim_row-IsSilent : IsSilent (claim_row now) t
  unfolding claim_row latest
  claim_row-IsSilent = ground arith

  pub promote-IsSilent : IsSilent (promote now) t
  unfolding promote latest
  promote-IsSilent = ground arith

  fail_row-IsSilent : (detail : String) → IsSilent (fail_row detail now) t
  unfolding fail_row latest
  fail_row-IsSilent detail = ground arith

  retry_row-IsSilent : IsSilent (retry_row now) t
  unfolding retry_row latest
  retry_row-IsSilent = ground arith

recover_row-IsSilent : (t : AsyncTask) → IsSilent recover_row t
unfolding recover_row latest
recover_row-IsSilent t = ground arith

module _ (key : String) (tasks : List AsyncTask) where
  claim_due-view : (now : ℕ) → view key (claim_due now tasks).1 ≡ view key tasks
  unfolding claim_due
  claim_due-view now = elim (Option-cases (first_due now tasks)) [
    | inl e ↦ rw (e, claim_due)
    | inr (c, e) ↦
        rw (e, claim_due)
          (view-update_where key (is_claimable c.id) (claim_row now) tasks
            (λ t _. claim_row-IsSilent now t))
  ]

  pub finish_failure-view :
      (task_id : ℕ) (detail : String) (now : ℕ)
      → view key (finish_failure task_id detail now tasks) ≡ view key tasks
  unfolding finish_failure
  finish_failure-view task_id detail now =
      view-update_where key (has_id task_id) (fail_row detail now) tasks
        (λ t _. fail_row-IsSilent now t detail)

  retry_all-view : (now : ℕ) → view key (retry_all now tasks) ≡ view key tasks
  unfolding retry_all
  retry_all-view now =
      view-update_where key _ (retry_row now) tasks (λ t _. retry_row-IsSilent now t)

  recover_async_tasks-view : view key (recover_async_tasks tasks).1 ≡ view key tasks
  unfolding recover_async_tasks
  recover_async_tasks-view =
      view-update_where key _ recover_row tasks (λ t _. recover_row-IsSilent t)

  -- Claiming, failing, retrying everything and recovering after a restart leave every pending payload
  -- as it is, whatever the key and the state of the rows.
  pub view_kept :
      (task_id : ℕ) (detail : String) (now : ℕ)
      → (view key (claim_due now tasks).1 ≡ view key tasks)
        × (view key (finish_failure task_id detail now tasks) ≡ view key tasks)
        × (view key (retry_all now tasks) ≡ view key tasks)
        × (view key (recover_async_tasks tasks).1 ≡ view key tasks)
  view_kept task_id detail now = (
    claim_due-view now,
    finish_failure-view task_id detail now,
    retry_all-view now,
    recover_async_tasks-view,
  )
