-- ===== src/Tasks/Drained.antt =====
-- The loop of `_execute`: it ends, and nothing that was due is left due.
use euvieouvi.Base.{
  ℕ, zero, suc, ◌+◌, ◌*◌, ◌≤◌, ◌<◌, ◌≡◌, inl, inr, refl, ap, false, none, some, List, arith,
  Option-cases, count, find_first,
}
use euvieouvi.Tasks.Row.{AsyncTask, Payload}
use euvieouvi.Tasks.Queue.{is_due, claim_due, has_id}
use euvieouvi.Tasks.Run.{
  Attempt, attempt, applied, raised, Outcome, finish, run_one, Drained, note, drain,
}
use euvieouvi.Tasks.Invariant.{
  IsConsistent, claim_due-IsConsistent, finish_success-IsConsistent, finish_failure-IsConsistent,
}
use euvieouvi.Tasks.Attempts.{attempts_left}
use euvieouvi.Tasks.Drain.{Claimed, claim_cases, finish_failure-attempts, finish_success-attempts}

-- What one round of the loop leaves.
record IsProgress (tasks : List AsyncTask) (o : Outcome) : Type 0 where
  consistent : IsConsistent o.tasks
  fewer : attempts_left o.tasks < attempts_left tasks
  reported : o.succeeded ≡ false → o.changed ≡ false

module _ (apply : Payload → Attempt) (now ended : ℕ) (tasks : List AsyncTask)
    (h : IsConsistent tasks) (task_id : ℕ) (c : Claimed now tasks task_id) where
  abbrev claimed : List AsyncTask
  claimed = (claim_due now tasks).1

  finish-IsProgress : (a : Attempt) → IsProgress tasks (finish task_id ended a claimed)
  finish-IsProgress (applied changed) = record {
    consistent =
        finish_success-IsConsistent claimed (claim_due-IsConsistent tasks h now) task_id ended;
    fewer = omega (arith, finish_success-attempts ended task_id claimed c.alone, c.fewer);
    reported = λ e. cc;
  }
  finish-IsProgress (raised detail) = record {
    consistent =
        finish_failure-IsConsistent claimed (claim_due-IsConsistent tasks h now) task_id detail
          ended c.running;
    fewer = omega (arith, finish_failure-attempts ended task_id claimed detail c.running, c.fewer);
    reported = λ e. refl;
  }

  run_one-IsProgress : IsProgress tasks (run_one apply (λ t. t) task_id ended claimed)
  unfolding run_one
  run_one-IsProgress = elim (Option-cases (find_first (has_id task_id) claimed)) [
    | inl e ↦
        rw (e, run_one)
          (record {
            consistent = claim_due-IsConsistent tasks h now;
            fewer = c.fewer;
            reported = λ e. refl;
          })
    | inr (task, e) ↦ rw (e, run_one) (finish-IsProgress (attempt apply claimed task))
  ]

-- What a finished drain has to show for the tasks that it started from.
pub record IsDrained (clock : ℕ → ℕ) (k : ℕ) (tasks : List AsyncTask) (d : Drained) : Type 0 where
  pub consistent : IsConsistent d.tasks
  pub last_reading : ℕ
  pub readings : last_reading ≡ k + 2 * d.processed
  pub nothing_due : count (is_due (clock last_reading)) d.tasks ≡ 0
  pub bounded : d.processed ≤ attempts_left tasks
  pub counted : d.updated + d.failed ≤ d.processed

counted_note :
    (o : Outcome) (d : Drained)
    → (o.succeeded ≡ false → o.changed ≡ false)
    → d.updated + d.failed ≤ d.processed
    → (note o d).updated + (note o d).failed ≤ (note o d).processed
counted_note o d reported counted = ground arith

-- Where nothing else is committed meanwhile, the loop ends by itself, whatever the attempts answer and
-- whatever the clock reads at each claim and at each end: with fuel for one round more than there are
-- attempts left, up to twelve for each task that is not blocked. The table is then consistent and nothing
-- in it is due at the last reading of the clock, there were no more executions than attempts left, and
-- no more updates and failures together than executions.
pub drain-IsDrained :
    (apply : ℕ → Payload → Attempt) (clock : ℕ → ℕ) (k fuel : ℕ) (tasks : List AsyncTask)
    → IsConsistent tasks
    → attempts_left tasks < fuel
    → (d : Drained) × (drain apply (λ k t. t) clock k fuel tasks ≡ some d)
      × IsDrained clock k tasks d
unfolding drain
drain-IsDrained apply clock k zero tasks h enough = absurd (omega arith)
drain-IsDrained apply clock k (suc fuel) tasks h enough = elim (claim_cases (clock k) tasks h) [
  | inl (idle, nothing) ↦
      let answer : (claim_due (clock k) tasks).0 ≡ none = ap (λ p. p.0) idle in
      let same : (claim_due (clock k) tasks).1 ≡ tasks = ap (λ p. p.1) idle in
      (
        record { processed = 0; updated = 0; failed = 0; tasks = (claim_due (clock k) tasks).1 },
        rw (answer, drain),
        rw same (record {
          consistent = h;
          last_reading = k;
          readings = omega arith;
          nothing_due = nothing;
          bounded = omega arith;
          counted = omega arith;
        }),
      )
  | inr (task_id, c) ↦
      let o = run_one (apply k) (λ t. t) task_id (clock (k + 1)) (claim_due (clock k) tasks).1 in
      let p = run_one-IsProgress (apply k) (clock k) (clock (k + 1)) tasks h task_id c in
      let (d, run, drained) =
        drain-IsDrained apply clock (k + 2) fuel o.tasks p.consistent (omega (arith, p.fewer)) in
      (
        note o d,
        rw (c.answer, drain) (rw (run, drain)),
        record {
          consistent = drained.consistent;
          last_reading = drained.last_reading;
          readings = omega (arith, drained.readings);
          nothing_due = drained.nothing_due;
          bounded = omega (arith, drained.bounded, p.fewer);
          counted = counted_note o d p.reported drained.counted;
        },
      )
]
