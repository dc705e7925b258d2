-- ===== src/Tasks/Races.antt =====
-- Events that arrive while their task is being executed.
use euvieouvi.Base.{
  ℕ, ◌≡◌, ◌∙◌, inl, inr, String, true, some, List, is_some, arith, Option-cases, All,
  All-update_where, any, find_first, find_first-some, eq_refl,
}
use euvieouvi.Tasks.Row.{AsyncTask, Payload, is_processing, has_key}
use euvieouvi.Tasks.Queue.{requeue, enqueue, has_id, finish_success}
use euvieouvi.Tasks.Run.{Attempt, attempt, applied, raised, finish, run_one}
use euvieouvi.Tasks.Invariant.{IsConsistent, enqueue-IsConsistent}
use euvieouvi.Tasks.View.{latest, find_key, view, finish_failure-view}
use euvieouvi.Tasks.Events.{left_by, enqueue-view, finish_success-view}

abbrev HasSuccessor : String → AsyncTask → Type 0
HasSuccessor key t = has_key key t ≡ true → is_some t.pending_payload ≡ true

module _ (key : String) (newer : Payload) (later : ℕ) where
  requeue-HasSuccessor :
      (t : AsyncTask) → is_processing t.status ≡ true → HasSuccessor key (requeue newer later t)
  unfolding requeue
  requeue-HasSuccessor t e = λ _. ground arith

  enqueue-HasSuccessor :
      (tasks : List AsyncTask)
      → any (has_key key) tasks ≡ true
      → All (λ t. has_key key t ≡ true → is_processing t.status ≡ true) tasks
      → All (HasSuccessor key) (enqueue key newer later tasks)
  unfolding enqueue
  enqueue-HasSuccessor tasks known running = rw known (
      All-update_where (has_key key) (requeue newer later) tasks
        (λ t run e. requeue-HasSuccessor t (run e)) (λ t _ e k. cc) running)

-- With a successor on every row of the key, a success leaves the view of the key.
success_keeps :
    (key : String) (task_id now : ℕ) (tasks : List AsyncTask)
    → IsConsistent tasks
    → All (HasSuccessor key) tasks
    → view key (finish_success task_id now tasks) ≡ view key tasks
unfolding left_by view latest
success_keeps key task_id now tasks h successors = elim (Option-cases (find_key key tasks)) [
  | inl e ↦ ground (arith, finish_success-view key task_id now tasks h)
  | inr (t, e) ↦
      let (more, hit) = find_first-some _ (has_key key) tasks t e successors in
      let kept = more hit in ground (arith, finish_success-view key task_id now tasks h)
]

module _ (apply : Payload → Attempt) (key : String) (newer : Payload) (task_id later now : ℕ)
    (tasks : List AsyncTask) (h : IsConsistent tasks) (known : any (has_key key) tasks ≡ true)
    (running : All (λ t. has_key key t ≡ true → is_processing t.status ≡ true) tasks) where
  abbrev after : List AsyncTask
  after = enqueue key newer later tasks

  arrived : view key after ≡ some newer
  arrived = enqueue-view key key newer later tasks h ∙ rw (eq_refl key)

  after_attempt : (a : Attempt) → view key (finish task_id now a after).tasks ≡ some newer
  after_attempt (applied changed) =
      success_keeps key task_id now after (enqueue-IsConsistent tasks h key newer later)
        (enqueue-HasSuccessor key newer later tasks known running)
      ∙ arrived
  after_attempt (raised detail) = finish_failure-view key after task_id detail now ∙ arrived

  -- A completion or a progress that arrives while its task is being executed is never lost: whatever
  -- comes of that execution, the new payload is the one to be applied next.
  pub run_one-keeps_newer :
      view key (run_one apply (enqueue key newer later) task_id now tasks).tasks ≡ some newer
  unfolding run_one
  run_one-keeps_newer = elim (Option-cases (find_first (has_id task_id) tasks)) [
    | inl e ↦ rw (e, run_one) arrived
    | inr (task, e) ↦ rw (e, run_one) (after_attempt (attempt apply tasks task))
  ]
