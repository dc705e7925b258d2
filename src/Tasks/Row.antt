-- ===== src/Tasks/Row.antt =====
-- The row of `async_tasks` (database/models.py), what it holds and how it is identified
-- (`enqueue_watch_update` of sync/async_tasks.py). The JSON of a payload is the record that it
-- encodes; a point in time is a number of microseconds.
use euvieouvi.Base.{ℕ, ◌*◌, String, Bool, true, false, Option, str_eq}

pub data TaskStatus : Type 0 where
  pending processing blocked : TaskStatus

abbrev pub is_pending : TaskStatus → Bool
is_pending pending = true
is_pending _ = false

abbrev pub is_processing : TaskStatus → Bool
is_processing processing = true
is_processing _ = false

abbrev pub is_blocked : TaskStatus → Bool
is_blocked blocked = true
is_blocked _ = false

pub record Payload : Type 0 where
  pub source_id : ℕ
  pub external_id : String
  pub watched_at : ℕ
  pub progress_ms : Option ℕ
  pub completed : Bool
  pub library_external_id : Option String

-- The text that is hashed into `dedup_key`: a completion is identified by its time as well, a
-- progress is not.
pub data Identity : Type 0 where
  watch : ℕ → String → ℕ → Identity
  progress : ℕ → String → Identity

unfoldable pub identity : Payload → Identity
identity p = elim p.completed [
  | true ↦ watch p.source_id p.external_id p.watched_at
  | false ↦ progress p.source_id p.external_id
]

pub record AsyncTask : Type 0 where
  pub id : ℕ
  pub task_type : String
  pub dedup_key : String
  pub payload : Payload
  pub pending_payload : Option Payload
  pub status : TaskStatus
  pub attempts : ℕ
  pub next_attempt_at : ℕ
  pub last_attempt_at : Option ℕ
  pub last_error : Option String

abbrev pub has_key : String → AsyncTask → Bool
has_key key t = str_eq t.dedup_key key

abbrev pub max_automatic_attempts : ℕ
max_automatic_attempts = 12

abbrev pub seconds : ℕ → ℕ
seconds n = n * 1_000_000
