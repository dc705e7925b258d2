-- ===== src/Tasks/Events.antt =====
-- What an event and the end of an execution do to the view.
use euvieouvi.Base.{
  ℕ, ◌≤◌, ◌≡◌, inl, inr, refl, ◌∙◌, String, true, false, Option, none, some, List, [], ◌∷◌, ◌++◌,
  arith, Bool-cases, Option-cases, All, any, count, find_first, find_first-some, find_first-absent,
  none_of_count, update_where, delete_where, if◌then◌else◌, ◌==◌, str_eq, eq_iff,
}
use euvieouvi.Tasks.Row.{AsyncTask, Payload, has_key}
use euvieouvi.Tasks.Queue.{
  requeue, next_id, new_task, enqueue, is_settled, has_successor, promote, finish_success,
}
use euvieouvi.Tasks.Invariant.{IsSound, IsConsistent}
use euvieouvi.Tasks.View.{latest, find_key, view, view-cons, view-update_where, promote-IsSilent}

latest-requeue :
    (payload : Payload) (now : ℕ) (t : AsyncTask)
    → IsSound t
    → latest (requeue payload now t) ≡ payload
unfolding latest requeue
latest-requeue payload now t s = ground arith

requeue-key :
    (payload : Payload) (now : ℕ) (t : AsyncTask) → (requeue payload now t).dedup_key ≡ t.dedup_key
unfolding requeue
requeue-key payload now t = ground arith

module _ (key : String) (payload : Payload) (now : ℕ) where
  view-requeue_ne :
      (other : String) (tasks : List AsyncTask)
      → str_eq key other ≡ false
      → view other (update_where (has_key key) (requeue payload now) tasks) ≡ view other tasks
  unfolding update_where
  view-requeue_ne other [] e = refl
  view-requeue_ne other (t ∷ tasks) e =
      let hit = requeue payload now t in
      let moved = update_where (has_key key) (requeue payload now) tasks in
      ground (
        arith,
        view-cons other hit moved,
        view-cons other t moved,
        view-cons other t tasks,
        requeue-key payload now t,
        eq_iff t.dedup_key key,
        eq_iff t.dedup_key other,
        eq_iff key other,
        view-requeue_ne other tasks e,
      )

  view-requeue :
      (other : String) (tasks : List AsyncTask)
      → All IsSound tasks
      → any (has_key key) tasks ≡ true
      → view other (update_where (has_key key) (requeue payload now) tasks)
        ≡ (if str_eq key other then some payload else view other tasks)
  unfolding update_where any
  view-requeue other [] s e = cc
  view-requeue other (t ∷ tasks) s e =
      let hit = requeue payload now t in
      let moved = update_where (has_key key) (requeue payload now) tasks in
      ground (
        arith,
        view-cons other hit moved,
        view-cons other t moved,
        view-cons other t tasks,
        latest-requeue payload now t s.0,
        requeue-key payload now t,
        eq_iff t.dedup_key key,
        eq_iff t.dedup_key other,
        eq_iff key other,
        view-requeue other tasks s.1,
        view-requeue_ne other tasks,
      )

  view-insert :
      (other : String) (id : ℕ) (tasks : List AsyncTask)
      → any (has_key key) tasks ≡ false
      → view other (tasks ++ new_task id key payload now ∷ [])
        ≡ (if str_eq key other then some payload else view other tasks)
  unfolding any
  view-insert other id [] e = unfold view latest new_task find_first in ground arith
  view-insert other id (t ∷ tasks) e = ground (
    arith,
    view-cons other t (tasks ++ new_task id key payload now ∷ []),
    view-cons other t tasks,
    eq_iff t.dedup_key key,
    eq_iff t.dedup_key other,
    eq_iff key other,
    view-insert other id tasks,
  )

-- After an event its payload is the one to be applied for its key, whatever was queued, running or
-- blocked there, and every other key is as it was.
pub enqueue-view :
    (key other : String) (payload : Payload) (now : ℕ) (tasks : List AsyncTask)
    → IsConsistent tasks
    → view other (enqueue key payload now tasks)
      ≡ (if str_eq key other then some payload else view other tasks)
unfolding enqueue
enqueue-view key other payload now tasks h = elim (Bool-cases (any (has_key key) tasks)) [
  | inl known ↦ rw known (view-requeue key payload now other tasks h.sound known)
  | inr absent ↦ rw absent (view-insert key payload now other (next_id tasks) tasks absent)
]

-- The entry of a key whose row was `t` before the execution with the id `task_id` succeeded: of that
-- row only the newer payload is left, if there is one.
unfoldable pub left_by : ℕ → Option AsyncTask → Option Payload
left_by task_id none = none
left_by task_id (some t) = if t.id == task_id then t.pending_payload else some (latest t)

-- The entry by the test that the statements make.
unfoldable kept_by : ℕ → Option AsyncTask → Option Payload
kept_by task_id none = none
kept_by task_id (some t) = if is_settled task_id t then none else some (latest t)

kept_by-left_by : (task_id : ℕ) (row : Option AsyncTask) → kept_by task_id row ≡ left_by task_id row
unfolding kept_by left_by latest
kept_by-left_by task_id none = refl
kept_by-left_by task_id (some t) = ground arith

module _ (key : String) (task_id : ℕ) where
  view-delete_where :
      (tasks : List AsyncTask)
      → count (has_key key) tasks ≤ 1
      → view key (delete_where (is_settled task_id) tasks) ≡ kept_by task_id (find_key key tasks)
  unfolding delete_where count kept_by find_first view
  view-delete_where [] few = refl
  view-delete_where (t ∷ tasks) few = ground (
    arith,
    view-cons key t (delete_where (is_settled task_id) tasks),
    view-delete_where tasks,
    find_first-absent (has_key key) tasks,
  )

  no_settled :
      (tasks : List AsyncTask)
      → All (λ t. is_settled task_id t ≡ false) tasks
      → view key tasks ≡ kept_by task_id (find_key key tasks)
  unfolding view kept_by
  no_settled tasks none_settled = elim (Option-cases (find_key key tasks)) [
    | inl e ↦ ground arith
    | inr (t, e) ↦
        let (kept, _) = find_first-some _ (has_key key) tasks t e none_settled in ground arith
  ]

-- After a successful execution the entry of the key of its row is the payload that came meanwhile, and
-- none where none came; the entry of every other key is as it was.
pub finish_success-view :
    (key : String) (task_id now : ℕ) (tasks : List AsyncTask)
    → IsConsistent tasks
    → view key (finish_success task_id now tasks) ≡ left_by task_id (find_key key tasks)
unfolding finish_success
finish_success-view key task_id now tasks h =
    elim (Bool-cases (0 == count (is_settled task_id) tasks)) [
      | inl e ↦ rw e (
          view-update_where key (has_successor task_id) (promote now) tasks
            (λ t _. promote-IsSilent now t)
          ∙ no_settled key task_id tasks (none_of_count (is_settled task_id) tasks (ground arith))
          ∙ kept_by-left_by task_id (find_key key tasks))
      | inr e ↦ rw e (
          view-delete_where key task_id tasks (h.unique_keys key)
          ∙ kept_by-left_by task_id (find_key key tasks))
    ]
