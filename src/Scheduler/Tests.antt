-- ===== src/Scheduler/Tests.antt =====
-- A day of the scheduler, and the theorems at it.
use euvieouvi.Base.{
  ℕ, ◌≡◌, ◌≤◌, refl, String, true, false, some, none, [], ◌∷◌, any, str_eq, if◌then◌else◌,
}
use euvieouvi.Jobs.Row.{JobDefinition, is_job}
use euvieouvi.Jobs.Submit.{
  has_active, is_active_for, next_id, new_run, insert_run, set_log_filename, submit_job,
}
use euvieouvi.Scheduler.Daily.{
  Clock, at, invalid, Schedule, Look, is_due, submit, look_at, mark, run_jobs_if_due,
}
use euvieouvi.Scheduler.Once.{submissions, submissions-le, submissions-due}

program : Unit {0}
unfolding is_job any has_active is_active_for next_id new_run insert_run set_log_filename submit_job
    is_due submit look_at mark run_jobs_if_due submissions
program = tt

-- The two texts that the settings below have.
abbrev parse_time : String → Clock
parse_time text = if str_eq text "03:00" then at 3 0 else invalid

abbrev sync_plex : JobDefinition
sync_plex = record { id = "sync_plex"; default_time = "03:00" }

abbrev enabled : Schedule
enabled = record { enabled = some "true"; time = none; last_date = some 19 }

abbrev look : ℕ → Look
look hour = record {
  hour = hour;
  minute = 5;
  now = 1000;
  max_attempts = 3;
  checked = [];
  seen_before = [];
  rows = [];
  seen_after = [];
  raced = [];
}

waits_for_the_hour : submissions parse_time 20 sync_plex (look 2 ∷ []) enabled ≡ 0
unfolding program
waits_for_the_hour = refl

queues_and_marks :
    (run_jobs_if_due parse_time 20
      (λ job. look 3)
      (record { job = sync_plex; schedule = enabled } ∷ [])).0
    ≡ some true
unfolding program
queues_and_marks = refl

is_due_at_three : is_due parse_time 20 sync_plex enabled (look 3) ≡ true
unfolding program
is_due_at_three = refl

is_known : is_job "sync_plex" ≡ true
unfolding program
is_known = refl

none_active : has_active "sync_plex" [] ≡ false
unfolding program
none_active = refl

submissions-due_example :
    submissions parse_time 20 sync_plex (look 3 ∷ look 4 ∷ look 5 ∷ []) enabled ≡ 1
submissions-due_example =
    submissions-due parse_time 20 sync_plex (look 3) (look 4 ∷ look 5 ∷ []) enabled is_due_at_three
      is_known none_active none_active none_active

submissions-le_example :
    submissions parse_time 20 sync_plex (look 2 ∷ look 3 ∷ look 4 ∷ []) enabled ≤ 1
submissions-le_example =
    submissions-le parse_time 20 sync_plex (look 2 ∷ look 3 ∷ look 4 ∷ []) enabled
