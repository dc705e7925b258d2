-- ===== src/Sync/Single.antt =====
-- The table of runs: at most one of them is queued or running.
use euvieouvi.Base.{
  ℕ, ◌≤◌, ◌≡◌, inl, inr, String, Bool, true, false, Option, some, some_or, List, [], ◌∷◌, ◌++◌,
  arith, Bool-cases, All-tabulate, any, count, count-snoc, count-none, count-update_where-le,
  any-false-All, update_where, ◌==◌,
}
use euvieouvi.Jobs.Row.{is_active}
use euvieouvi.Sync.Rows.{SyncRun, SyncRunLibrary}
use euvieouvi.Sync.Scan.{Library}
use euvieouvi.Sync.Run.{
  SourceRow, acquired, already_running, acquire, start_queued, Executed, RunState, conclude,
  finish_success, finish_failure,
}
use euvieouvi.Sync.Closing.{conclude-IsClosed, finish_success-IsClosed, finish_failure-IsClosed}
use euvieouvi.Sync.Rows.{Summary}

abbrev pub has_id : ℕ → SyncRun → Bool
has_id id r = r.id == id

-- The commits on the table: a run is acquired, a queued one starts, and an executed one ends, where what
-- the execution left of its row is any state.
pub data Reach (Rest : Type 0) : List SyncRun → Type 0 where
  here : Reach Rest []
  acquires :
      {runs : List SyncRun} (is_queued : Bool) (id now : ℕ) (source : Option SourceRow)
      (libraries : List Library) (run : SyncRun) (details : List SyncRunLibrary)
      → Reach Rest runs
      → acquire is_queued id now source libraries runs ≡ acquired run details
      → Reach Rest (runs ++ run ∷ [])
  starts :
      {runs : List SyncRun} (id now : ℕ)
      → Reach Rest runs
      → Reach Rest (update_where (has_id id) (λ r. some_or (start_queued now (some r)) r) runs)
  ends :
      {runs : List SyncRun} (id now : ℕ) (category : String) (x : Executed Rest)
      → Reach Rest runs
      → Reach Rest (update_where (has_id id) (λ r. (conclude true now category x).1.run) runs)
  succeeds :
      {runs : List SyncRun} (id now : ℕ) (summary : Summary) (s : RunState Rest)
      → Reach Rest runs
      → Reach Rest (update_where (has_id id) (λ r. (finish_success now summary s).run) runs)
  fails :
      {runs : List SyncRun} (id now : ℕ) (category detail : String) (summary : Summary)
      (s : RunState Rest)
      → Reach Rest runs
      → Reach Rest
          (update_where (has_id id) (λ r. (finish_failure now category detail summary s).run) runs)

abbrev pub active : SyncRun → Bool
active r = is_active r.status

acquire-idle :
    (is_queued : Bool) (id now : ℕ) (source : Option SourceRow) (libraries : List Library)
    (runs : List SyncRun) (run : SyncRun) (details : List SyncRunLibrary)
    → acquire is_queued id now source libraries runs ≡ acquired run details
    → any active runs ≡ false
unfolding acquire
acquire-idle is_queued id now source libraries runs run details e =
    elim (Bool-cases (any active runs)) [
      | inl busy ↦
          let refused : already_running ≡ acquired run details = rw busy at e in absurd (cc refused)
      | inr idle ↦ idle
    ]

start_queued-active :
    (now : ℕ) (r : SyncRun)
    → active (some_or (start_queued now (some r)) r) ≡ true
    → active r ≡ true
unfolding start_queued
start_queued-active now r h = ground arith

closed_run-le :
    (id : ℕ) (closed : SyncRun) (runs : List SyncRun)
    → active closed ≡ false
    → count active runs ≤ 1
    → count active (update_where (has_id id) (λ r. closed) runs) ≤ 1
closed_run-le id closed runs e before = omega (
  arith,
  before,
  count-update_where-le active active (has_id id) (λ r. closed) runs
      (All-tabulate runs (λ y w q. absurd (cc (e, q)))) (All-tabulate runs (λ y w q. q)),
)

-- From the empty table, at most one run is queued or running after any sequence of these commits.
pub reachable_runs-le :
    {Rest : Type 0} {runs : List SyncRun} → Reach Rest runs → count active runs ≤ 1
unfolding count
reachable_runs-le here = omega arith
reachable_runs-le (acquires {runs} is_queued id now source libraries run details r e) =
    let idle = acquire-idle is_queued id now source libraries runs run details e in
    let none_active = count-none active runs (any-false-All active runs idle) in
    ground (arith, count-snoc active runs run, none_active)
reachable_runs-le (starts {runs} id now r) =
    let before = reachable_runs-le r in
    omega (
      arith,
      before,
      count-update_where-le active active (has_id id) (λ x. some_or (start_queued now (some x)) x)
          runs (All-tabulate runs (λ x w q. start_queued-active now x q))
          (All-tabulate runs (λ x w q. q)),
    )
reachable_runs-le (ends {runs} id now category x r) =
    closed_run-le id (conclude true now category x).1.run runs
      (conclude-IsClosed now category x).run_closed (reachable_runs-le r)
reachable_runs-le (succeeds {runs} id now summary s r) =
    closed_run-le id (finish_success now summary s).run runs
      (finish_success-IsClosed now summary s).run_closed (reachable_runs-le r)
reachable_runs-le (fails {runs} id now category detail summary s r) =
    closed_run-le id (finish_failure now category detail summary s).run runs
      (finish_failure-IsClosed now category detail summary s).run_closed (reachable_runs-le r)
