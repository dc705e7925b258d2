-- ===== src/Scheduler/Once.antt =====
-- Over the looks of one day, a job is submitted at most once, and it is when it can be.
use euvieouvi.Base.{
  ℕ, ◌+◌, ◌≤◌, ◌≡◌, refl, String, true, false, some, List, [], ◌∷◌, arith, if◌then◌else◌,
}
use euvieouvi.Jobs.Row.{JobRun, JobDefinition, is_job}
use euvieouvi.Jobs.Submit.{has_active, submit_job, insert_run}
use euvieouvi.Scheduler.Daily.{
  Clock, Schedule, Look, Answer, passed_over, handled, submitted, raised, is_date, submit, is_due,
  look_at, mark, is_submitted,
}

module _ (parse_time : String → Clock) (date : ℕ) (job : JobDefinition) where
  -- The runs that the scheduler creates for the job in these looks of the day.
  unfoldable pub submissions : List Look → Schedule → ℕ
  submissions [] s = 0
  submissions (look ∷ looks) s =
      let answer = look_at parse_time date job s look in
      (if is_submitted answer then 1 else 0) + submissions looks (mark date answer s)

  is_due-done :
      (s : Schedule) (look : Look)
      → is_date date s.last_date ≡ true
      → is_due parse_time date job s look ≡ false
  unfolding is_due
  is_due-done s look done = ground arith

  look_at-done :
      (s : Schedule) (look : Look)
      → is_date date s.last_date ≡ true
      → look_at parse_time date job s look ≡ passed_over
  unfolding look_at
  look_at-done s look done = rw (is_due-done s look done) refl

  done_today :
      (looks : List Look) (s : Schedule) → is_date date s.last_date ≡ true → submissions looks s ≡ 0
  unfolding submissions mark
  done_today [] s done = refl
  done_today (look ∷ looks) s done =
      let later = done_today looks s done in rw (look_at-done s look done) (omega (arith, later))

  marked_today :
      (looks : List Look) (s : Schedule)
      → submissions looks (record s { last_date = some date }) ≡ 0
  marked_today looks s = done_today looks (record s { last_date = some date }) (ground arith)

  with_answer :
      (answer : Answer) (looks : List Look) (s : Schedule)
      → submissions looks s ≤ 1
      → (if is_submitted answer then 1 else 0) + submissions looks (mark date answer s) ≤ 1
  unfolding mark
  with_answer passed_over looks s h = omega (arith, h)
  with_answer handled looks s h = omega (arith, marked_today looks s)
  with_answer (submitted rows) looks s h = omega (arith, marked_today looks s)
  with_answer raised looks s h = omega (arith, h)

  -- However often the scheduler looks at a job on one day, and whatever other transactions do to the
  -- table meanwhile, it submits the job at most once.
  pub submissions-le : (looks : List Look) (s : Schedule) → submissions looks s ≤ 1
  unfolding submissions
  submissions-le [] s = omega arith
  submissions-le (look ∷ looks) s =
      with_answer (look_at parse_time date job s look) looks s (submissions-le looks s)

  look_at-submitted :
      (look : Look) (s : Schedule)
      → is_due parse_time date job s look ≡ true
      → is_job job.id ≡ true
      → has_active job.id look.checked ≡ false
      → has_active job.id look.seen_before ≡ false
      → has_active job.id look.rows ≡ false
      → (rows : List JobRun) × (look_at parse_time date job s look ≡ submitted rows)
  unfolding look_at submit submit_job insert_run
  look_at-submitted look s due known unchecked unseen free =
      rw (due, unchecked, known, unseen, free) (_, refl)

  -- A job that is due, exists and has no active run at any of the reads is submitted at this look, and
  -- at none of the following ones of the day.
  pub submissions-due :
      (look : Look) (looks : List Look) (s : Schedule)
      → is_due parse_time date job s look ≡ true
      → is_job job.id ≡ true
      → has_active job.id look.checked ≡ false
      → has_active job.id look.seen_before ≡ false
      → has_active job.id look.rows ≡ false
      → submissions (look ∷ looks) s ≡ 1
  unfolding submissions mark
  submissions-due look looks s due known unchecked unseen free =
      let (rows, answer) = look_at-submitted look s due known unchecked unseen free in
      rw answer (omega (arith, marked_today looks s))
