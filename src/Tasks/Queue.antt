-- ===== src/Tasks/Queue.antt =====
-- The statements on the table of tasks: `enqueue_watch_update`, `_claim_due`, the two ends of
-- `_run_one`, `retry_all` and `recover_async_tasks` of sync/async_tasks.py.
use euvieouvi.Base.{
  ℕ, suc, ◌+◌, ◌-◌, ◌*◌, ◌^◌, String, Bool, true, false, ◌&&◌, ◌||◌, Option, none, some, List, [],
  ◌∷◌, ◌++◌, is_none, is_some, some_or, if◌then◌else◌, ltb, leb, ◌==◌, any, where_, update_where,
  delete_where, count, order_by, find_first, min, max,
}
use euvieouvi.Tasks.Row.{
  AsyncTask, Payload, pending, processing, blocked, is_pending, is_processing, is_blocked, has_key,
  max_automatic_attempts, seconds,
}

-- What an event does to the row that already has its key: one in execution gets a successor, any
-- other starts anew.
unfoldable pub requeue : Payload → ℕ → AsyncTask → AsyncTask
requeue payload now t =
    if is_processing t.status
    then record t { pending_payload = some payload; next_attempt_at = now }
    else record t {
      payload = payload;
      status = pending;
      attempts = 0;
      last_error = none;
      next_attempt_at = now;
    }

-- One more than the largest id.
unfoldable pub next_id : List AsyncTask → ℕ
next_id [] = 1
next_id (t ∷ tasks) = max (suc t.id) (next_id tasks)

unfoldable pub new_task : ℕ → String → Payload → ℕ → AsyncTask
new_task id key payload now = record {
  id = id;
  task_type = "watch_update";
  dedup_key = key;
  payload = payload;
  pending_payload = none;
  status = pending;
  attempts = 0;
  next_attempt_at = now;
  last_attempt_at = none;
  last_error = none;
}

-- The lookup that finds the key, and the handler of the IntegrityError that a concurrent insertion
-- causes, end in the same update.
unfoldable pub enqueue : String → Payload → ℕ → List AsyncTask → List AsyncTask
enqueue key payload now tasks =
    if any (has_key key) tasks
    then update_where (has_key key) (requeue payload now) tasks
    else tasks ++ new_task (next_id tasks) key payload now ∷ []

unfoldable pub is_due : ℕ → AsyncTask → Bool
is_due now t = is_pending t.status && leb t.next_attempt_at now

-- `ORDER BY next_attempt_at, id`
unfoldable pub earlier : AsyncTask → AsyncTask → Bool
earlier a b =
    if ltb a.next_attempt_at b.next_attempt_at
    then true
    else if ltb b.next_attempt_at a.next_attempt_at
    then false
    else leb a.id b.id

unfoldable pub first_due : ℕ → List AsyncTask → Option AsyncTask
first_due now tasks = find_first (λ _. true) (order_by earlier (where_ (is_due now) tasks))

abbrev pub is_claimable : ℕ → AsyncTask → Bool
is_claimable task_id t = (t.id == task_id) && is_pending t.status

unfoldable pub claim_row : ℕ → AsyncTask → AsyncTask
claim_row now t = record t { status = processing; last_attempt_at = some now }

-- `none` also when another executor took the row first, and the UPDATE changed nothing.
unfoldable pub claim_due : ℕ → List AsyncTask → Option ℕ × List AsyncTask
claim_due now tasks = elim (first_due now tasks) [
  | none ↦ (none, tasks)
  | some t ↦ (
    (if 0 == count (is_claimable t.id) tasks then none else some t.id),
    update_where (is_claimable t.id) (claim_row now) tasks,
  )
]

-- A row with no successor, and one that has one.
abbrev pub is_settled : ℕ → AsyncTask → Bool
is_settled task_id t = (t.id == task_id) && is_none t.pending_payload

abbrev pub has_successor : ℕ → AsyncTask → Bool
has_successor task_id t = (t.id == task_id) && is_some t.pending_payload

unfoldable pub promote : ℕ → AsyncTask → AsyncTask
promote now t = record t {
  payload = some_or t.pending_payload t.payload;
  pending_payload = none;
  status = pending;
  attempts = 0;
  next_attempt_at = now;
}

-- After a successful execution: the row goes unless a successor came meanwhile.
unfoldable pub finish_success : ℕ → ℕ → List AsyncTask → List AsyncTask
finish_success task_id now tasks =
    if 0 == count (is_settled task_id) tasks
    then update_where (has_successor task_id) (promote now) tasks
    else delete_where (is_settled task_id) tasks

-- The pause in seconds after so many failures.
unfoldable pub retry_delay : ℕ → ℕ
retry_delay attempts = min 3600 (15 * 2 ^ min (attempts - 1) 8)

abbrev pub has_id : ℕ → AsyncTask → Bool
has_id task_id t = t.id == task_id

unfoldable pub fail_row : String → ℕ → AsyncTask → AsyncTask
fail_row detail now t = record t {
  attempts = t.attempts + 1;
  status = if leb max_automatic_attempts (t.attempts + 1) then blocked else pending;
  last_error = some detail;
  next_attempt_at = now + seconds (retry_delay (t.attempts + 1));
  payload = some_or t.pending_payload t.payload;
  pending_payload = none;
}

unfoldable pub finish_failure : ℕ → String → ℕ → List AsyncTask → List AsyncTask
finish_failure task_id detail now tasks = update_where (has_id task_id) (fail_row detail now) tasks

unfoldable pub retry_row : ℕ → AsyncTask → AsyncTask
retry_row now t = record t {
  status = pending;
  attempts = 0;
  last_error = none;
  next_attempt_at = now;
}

-- The UPDATE of `retry_all`.
unfoldable pub retry_all : ℕ → List AsyncTask → List AsyncTask
retry_all now tasks =
    update_where (λ t. is_pending t.status || is_blocked t.status) (retry_row now) tasks

unfoldable pub recover_row : AsyncTask → AsyncTask
recover_row t = record t {
  status = pending;
  payload = some_or t.pending_payload t.payload;
  pending_payload = none;
}

unfoldable pub recover_async_tasks : List AsyncTask → ℕ × List AsyncTask
recover_async_tasks tasks = (
  count (λ t. is_processing t.status) tasks,
  update_where (λ t. is_processing t.status) recover_row tasks,
)
