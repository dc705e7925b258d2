-- ===== src/Tasks/Steps.antt =====
-- The transactions of the queue of tasks as a step relation. Between the claim of a task and the end
-- of its execution any other step may come, but for a second executor and a restart.
use euvieouvi.Base.{ℕ, ◌≡◌, String, true, List, [], All}
use euvieouvi.Tasks.Row.{AsyncTask, Payload, is_processing}
use euvieouvi.Tasks.Queue.{
  enqueue, claim_due, has_id, finish_success, finish_failure, retry_all, recover_async_tasks,
}
use euvieouvi.Tasks.Invariant.{
  IsConsistent, empty-IsConsistent, enqueue-IsConsistent, claim_due-IsConsistent,
  finish_success-IsConsistent, finish_failure-IsConsistent, retry_all-IsConsistent,
  recover_async_tasks-IsConsistent,
}

pub data Step (tasks : List AsyncTask) : List AsyncTask → Type 0 where
  arrive : (key : String) (payload : Payload) (now : ℕ) → Step tasks (enqueue key payload now tasks)
  claim : (now : ℕ) → Step tasks (claim_due now tasks).1
  succeed : (task_id now : ℕ) → Step tasks (finish_success task_id now tasks)
  fail :
      (task_id : ℕ) (detail : String) (now : ℕ)
      → All (λ t. has_id task_id t ≡ true → is_processing t.status ≡ true) tasks
      → Step tasks (finish_failure task_id detail now tasks)
  retry : (now : ℕ) → Step tasks (retry_all now tasks)
  restart : Step tasks (recover_async_tasks tasks).1

pub data Reach (tasks : List AsyncTask) : List AsyncTask → Type 0 where
  here : Reach tasks tasks
  next : {middle last : List AsyncTask} → Reach tasks middle → Step middle last → Reach tasks last

Step-IsConsistent :
    {tasks tasks' : List AsyncTask} → Step tasks tasks' → IsConsistent tasks → IsConsistent tasks'
Step-IsConsistent {tasks} (arrive k p n) h = enqueue-IsConsistent tasks h k p n
Step-IsConsistent {tasks} (claim n) h = claim_due-IsConsistent tasks h n
Step-IsConsistent {tasks} (succeed i n) h = finish_success-IsConsistent tasks h i n
Step-IsConsistent {tasks} (fail i d n r) h = finish_failure-IsConsistent tasks h i d n r
Step-IsConsistent {tasks} (retry n) h = retry_all-IsConsistent tasks h n
Step-IsConsistent {tasks} restart h = recover_async_tasks-IsConsistent tasks h

-- From the empty table, any sequence of these steps leads to a consistent table: one row for each
-- key, unique ids, successors only on rows in execution, fewer than twelve failures on every row that
-- is not blocked, and exactly twelve on a blocked one.
pub reachable_tasks-IsConsistent : {tasks : List AsyncTask} → Reach [] tasks → IsConsistent tasks
reachable_tasks-IsConsistent here = empty-IsConsistent
reachable_tasks-IsConsistent (next r s) = Step-IsConsistent s (reachable_tasks-IsConsistent r)
