-- ===== src/Scheduler/Daily.antt =====
-- `_run_jobs_if_due` and `_mark_job_schedule_handled` of sync/scheduler.py: each job once per local day.
-- A date is the number of a day. Reading a text as an hour and a minute, as Python's `split` and `int`
-- do it, is an argument.
use euvieouvi.Base.{
  ℕ, String, Bool, true, false, not, ◌&&◌, ◌||◌, Option, none, some, List, [], ◌∷◌, str_eq,
  if◌then◌else◌, some_or, ltb, ◌==◌,
}
use euvieouvi.Jobs.Row.{JobRun, JobDefinition, scheduled}
use euvieouvi.Jobs.Submit.{
  Submission, created, already_active, key_error, integrity_error, has_active, submit_job,
}

pub data Clock : Type 0 where
  at : (hour minute : ℕ) → Clock
  invalid : Clock

-- The settings of a job, none of which has to exist.
pub record Schedule : Type 0 where
  pub enabled : Option String
  pub time : Option String
  pub last_date : Option ℕ

-- One look of the scheduler at a job. The tables are those of job_runs at the moments when the code reads
-- it, for other transactions come between: at the check, at the start, the commit and the failure of
-- `submit_job`, and after that.
pub record Look : Type 0 where
  pub hour : ℕ
  pub minute : ℕ
  pub now : ℕ
  pub max_attempts : ℕ
  pub checked : List JobRun
  pub seen_before : List JobRun
  pub rows : List JobRun
  pub seen_after : List JobRun
  pub raced : List JobRun

-- What the look comes to: nothing, the day is done without a run of its own, a run in the given
-- table, or an exception that ends the round of the scheduler.
pub data Answer : Type 0 where
  passed_over handled : Answer
  submitted : List JobRun → Answer
  raised : Answer

-- `(local_now.hour, local_now.minute) < (hour, minute)`
abbrev pub is_early : Look → ℕ → ℕ → Bool
is_early look hour minute = ltb look.hour hour || (look.hour == hour) && ltb look.minute minute

abbrev pub is_date : ℕ → Option ℕ → Bool
is_date date none = false
is_date date (some d) = d == date

unfoldable pub submit : JobDefinition → Look → Answer
submit job look = answer (
    submit_job job.id scheduled look.max_attempts look.now look.seen_before look.rows
      look.seen_after)
  where
    answer : Submission × List JobRun → Answer
    answer (created, rows) = submitted rows
    answer (already_active, rows) = if has_active job.id look.raced then handled else passed_over
    answer (key_error, rows) = raised
    answer (integrity_error, rows) = raised

unfoldable pub is_due : (String → Clock) → ℕ → JobDefinition → Schedule → Look → Bool
is_due parse_time date job schedule look =
    str_eq (some_or schedule.enabled "false") "true"
    && time_has_come (parse_time (some_or schedule.time job.default_time))
    && not (is_date date schedule.last_date)
  where
    time_has_come : Clock → Bool
    time_has_come invalid = false
    time_has_come (at hour minute) = not (is_early look hour minute)

unfoldable pub look_at : (String → Clock) → ℕ → JobDefinition → Schedule → Look → Answer
look_at parse_time date job schedule look =
    if not (is_due parse_time date job schedule look)
    then passed_over
    else if has_active job.id look.checked
    then handled
    else submit job look

-- `_mark_job_schedule_handled`, where the answer asks for it.
unfoldable pub mark : ℕ → Answer → Schedule → Schedule
mark date passed_over s = s
mark date handled s = record s { last_date = some date }
mark date (submitted rows) s = record s { last_date = some date }
mark date raised s = s

pub record Entry : Type 0 where
  pub job : JobDefinition
  pub schedule : Schedule

abbrev pub is_raised : Answer → Bool
is_raised raised = true
is_raised _ = false

abbrev pub is_submitted : Answer → Bool
is_submitted (submitted rows) = true
is_submitted _ = false

-- The loop over the jobs; an exception leaves the rest of them as they are. The first component is
-- `queued`, where the loop ends without one.
unfoldable pub run_jobs_if_due :
    (String → Clock) → ℕ → (JobDefinition → Look) → List Entry → Option Bool × List Entry
run_jobs_if_due parse_time date look [] = (some false, [])
run_jobs_if_due parse_time date look (e ∷ entries) =
    let answer = look_at parse_time date e.job e.schedule (look e.job) in
    let rest = run_jobs_if_due parse_time date look entries in
    if is_raised answer then (none, e ∷ entries) else (
      elim rest.0 [ none ↦ none | some queued ↦ some (is_submitted answer || queued) ],
      record e { schedule = mark date answer e.schedule } ∷ rest.1,
    )
