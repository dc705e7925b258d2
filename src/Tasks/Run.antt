-- ===== src/Tasks/Run.antt =====
-- `_run_one`, `_is_superseded` and the loop of `_execute` of sync/async_tasks.py. Applying an update
-- to the other servers is an argument, and so is what other requests commit to the table meanwhile.
use euvieouvi.Base.{
  ℕ, zero, suc, ◌+◌, String, Bool, true, false, not, ◌&&◌, Option, none, some, List, str_eq,
  if◌then◌else◌, ◌==◌, any, find_first,
}
use euvieouvi.Tasks.Row.{AsyncTask, Payload}
use euvieouvi.Tasks.Queue.{has_id, claim_due, finish_success, finish_failure}

-- A completion of the same media of the same source is queued, running or blocked.
abbrev pub supersedes : AsyncTask → Payload → AsyncTask → Bool
supersedes task payload candidate =
    str_eq candidate.task_type "watch_update"
    && not (candidate.id == task.id)
    && candidate.payload.completed
    && (candidate.payload.source_id == payload.source_id)
    && str_eq candidate.payload.external_id payload.external_id

unfoldable pub is_superseded : List AsyncTask → AsyncTask → Payload → Bool
is_superseded tasks task payload =
    if payload.completed then false else any (supersedes task payload) tasks

-- What came of an attempt: whether anything changed, or the text of the exception.
pub data Attempt : Type 0 where
  applied : Bool → Attempt
  raised : String → Attempt

unfoldable pub attempt : (Payload → Attempt) → List AsyncTask → AsyncTask → Attempt
attempt apply tasks task =
    if not (str_eq task.task_type "watch_update")
    then raised "unsupported task type"
    else if is_superseded tasks task task.payload
    then applied false
    else apply task.payload

pub record Outcome : Type 0 where
  pub succeeded : Bool
  pub changed : Bool
  pub tasks : List AsyncTask

abbrev pub finish : ℕ → ℕ → Attempt → List AsyncTask → Outcome
finish task_id now (applied changed) tasks = record {
  succeeded = true;
  changed = changed;
  tasks = finish_success task_id now tasks;
}
finish task_id now (raised detail) tasks = record {
  succeeded = false;
  changed = false;
  tasks = finish_failure task_id detail now tasks;
}

unfoldable pub run_one :
    (Payload → Attempt) → (List AsyncTask → List AsyncTask) → ℕ → ℕ → List AsyncTask → Outcome
run_one apply meanwhile task_id now tasks = elim (find_first (has_id task_id) tasks) [
  | none ↦ record { succeeded = true; changed = false; tasks = meanwhile tasks }
  | some task ↦ finish task_id now (attempt apply tasks task) (meanwhile tasks)
]

pub record Drained : Type 0 where
  pub processed : ℕ
  pub updated : ℕ
  pub failed : ℕ
  pub tasks : List AsyncTask

abbrev pub note : Outcome → Drained → Drained
note o d = record d {
  processed = d.processed + 1;
  updated = d.updated + (if o.changed then 1 else 0);
  failed = d.failed + (if o.succeeded then 0 else 1);
}

-- The loop of `_execute`: `none` when the fuel ends first. The clock is read at each claim and at each
-- end of an execution, `k` counts the readings, and `meanwhile` is what other requests commit between
-- the two.
unfoldable pub drain :
    (ℕ → Payload → Attempt)
    → (ℕ → List AsyncTask → List AsyncTask)
    → (ℕ → ℕ)
    → ℕ
    → ℕ
    → List AsyncTask
    → Option Drained
drain apply meanwhile clock k zero tasks = none
drain apply meanwhile clock k (suc fuel) tasks =
    let claim = claim_due (clock k) tasks in
    elim claim.0 [
      | none ↦ some (record { processed = 0; updated = 0; failed = 0; tasks = claim.1 })
      | some task_id ↦
          let o = run_one (apply k) (meanwhile k) task_id (clock (k + 1)) claim.1 in
          elim (drain apply meanwhile clock (k + 2) fuel o.tasks) [
            | none ↦ none
            | some d ↦ some (note o d)
          ]
    ]
