-- ===== src/Tasks/Tests.antt =====
-- Runs of the queue of tasks, and the theorems at them.
use euvieouvi.Base.{
  ◌+◌, ℕ, ◌<◌, ◌≡◌, refl, true, false, Option, none, some, List, [], ◌∷◌, map, arith, All, str_eq,
  if◌then◌else◌, any, count, find_first, where_, order_by, update_where, delete_where,
}
use euvieouvi.Tasks.Row.{AsyncTask, Payload, processing, has_key, identity, is_processing}
use euvieouvi.Tasks.Queue.{
  enqueue, requeue, next_id, new_task, is_due, earlier, first_due, claim_due, claim_row, promote,
  finish_success, retry_delay, fail_row, finish_failure, retry_all, recover_async_tasks,
}
use euvieouvi.Tasks.Run.{Attempt, applied, is_superseded, attempt, run_one, Drained, drain}
use euvieouvi.Tasks.Invariant.{IsConsistent}
use euvieouvi.Tasks.View.{view, view_kept, find_key}
use euvieouvi.Tasks.Events.{enqueue-view, left_by, finish_success-view}
use euvieouvi.Tasks.Races.{run_one-keeps_newer}
use euvieouvi.Tasks.Attempts.{attempts_left}
use euvieouvi.Tasks.Drained.{IsDrained, drain-IsDrained}
use euvieouvi.Tasks.Steps.{here, next, arrive, claim, succeed, reachable_tasks-IsConsistent}

program : Unit {0}
unfolding enqueue requeue next_id new_task is_due earlier first_due claim_due claim_row promote
    finish_success retry_delay fail_row finish_failure is_superseded attempt run_one drain any count
    find_first where_ order_by update_where delete_where identity
program = tt

abbrev position : ℕ → Payload
position ms = record {
  source_id = 1;
  external_id = "42";
  watched_at = 100;
  progress_ms = some ms;
  completed = false;
  library_external_id = none;
}

-- Two positions of one film share an identity, so the later one replaces the earlier.
identity_shared : identity (position 10) ≡ identity (position 20)
unfolding identity
identity_shared = refl

abbrev queued : List AsyncTask
queued = enqueue "k" (position 10) 100 []

abbrev started : List AsyncTask
started = (claim_due 100 queued).1

abbrev superseding : List AsyncTask
superseding = enqueue "k" (position 20) 110 started

statuses : map (λ t. t.status) superseding ≡ processing ∷ []
unfolding program
statuses = refl

succeeds : Payload → Attempt
succeeds _ = applied true

drained : Option Drained
drained = drain (λ k. succeeds) (λ k t. t) (λ k. 100 + k) 0 13 queued

drains : drained ≡ some (record { processed = 1; updated = 1; failed = 0; tasks = [] })
unfolding drained program succeeds
drains = refl

queued-IsConsistent : IsConsistent queued
queued-IsConsistent = reachable_tasks-IsConsistent (next here (arrive "k" (position 10) 100))

started-IsConsistent : IsConsistent started
started-IsConsistent =
    reachable_tasks-IsConsistent (next (next here (arrive "k" (position 10) 100)) (claim 100))

reachable_tasks-IsConsistent_example : IsConsistent (finish_success 1 120 superseding)
reachable_tasks-IsConsistent_example = reachable_tasks-IsConsistent (
    next
      (next (next (next here (arrive "k" (position 10) 100)) (claim 100))
        (arrive "k" (position 20) 110))
      (succeed 1 120))

view_kept_example :
    (view "k" (claim_due 130 superseding).1 ≡ view "k" superseding)
    × (view "k" (finish_failure 1 "timeout" 130 superseding) ≡ view "k" superseding)
    × (view "k" (retry_all 130 superseding) ≡ view "k" superseding)
    × (view "k" (recover_async_tasks superseding).1 ≡ view "k" superseding)
view_kept_example = view_kept "k" superseding 1 "timeout" 130

enqueue-view_example :
    view "j" (enqueue "k" (position 20) 110 started)
    ≡ (if str_eq "k" "j" then some (position 20) else view "j" started)
enqueue-view_example = enqueue-view "k" "j" (position 20) 110 started started-IsConsistent

finish_success-view_example :
    view "k" (finish_success 1 120 started) ≡ left_by 1 (find_key "k" started)
finish_success-view_example = finish_success-view "k" 1 120 started started-IsConsistent

is_known : any (has_key "k") started ≡ true
unfolding program
is_known = refl

each_running : All (λ t. has_key "k" t ≡ true → is_processing t.status ≡ true) started
unfolding program
each_running = ((λ _. refl), tt)

run_one-keeps_newer_example :
    view "k" (run_one succeeds (enqueue "k" (position 20) 110) 1 120 started).tasks
    ≡ some (position 20)
run_one-keeps_newer_example =
    run_one-keeps_newer succeeds "k" (position 20) 1 110 120 started started-IsConsistent is_known
      each_running

twelve_left : attempts_left queued < 13
unfolding program attempts_left
twelve_left = omega arith

drain-IsDrained_example :
    (d : Drained) × (drain (λ k. succeeds) (λ k t. t) (λ k. 100 + k) 0 13 queued ≡ some d)
    × IsDrained (λ k. 100 + k) 0 queued d
drain-IsDrained_example =
    drain-IsDrained (λ k. succeeds) (λ k. 100 + k) 0 13 queued queued-IsConsistent twelve_left

abbrev last_try : AsyncTask
last_try = record {
  id = 1;
  task_type = "watch_update";
  dedup_key = "k";
  payload = position 10;
  pending_payload = some (position 20);
  status = processing;
  attempts = 11;
  next_attempt_at = 100;
  last_attempt_at = some 100;
  last_error = some "timeout";
}
