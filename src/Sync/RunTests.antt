-- ===== src/Sync/RunTests.antt =====
-- The commits on the table of runs, and the theorem at them.
use euvieouvi.Base.{
  any, ◌≤◌, ◌≡◌, refl, String, true, Option, some, some_or, List, [], ◌∷◌, count, update_where,
}
use euvieouvi.Sync.Rows.{SyncRun, SyncRunLibrary}
use euvieouvi.Sync.Run.{acquire, start_queued, Acquired, acquired, SourceRow}
use euvieouvi.Sync.Single.{here, acquires, starts, active, has_id, reachable_runs-le}
use euvieouvi.Sync.Samples.{run, library}

-- A queued run of one library, and its start.
abbrev source : Option SourceRow
source = some (record { id = 1; enabled = true })

abbrev run_of : Acquired → SyncRun
run_of (acquired r details) = r
run_of _ = run

abbrev details_of : Acquired → List SyncRunLibrary
details_of (acquired r details) = details
details_of _ = []

abbrev first_run : Acquired
first_run = acquire true 1 900 source (library ∷ []) []

is_acquired : first_run ≡ acquired (run_of first_run) (details_of first_run)
unfolding acquire any
is_acquired = refl

reachable_runs-le_example :
    count active
      (update_where (has_id 1) (λ r. some_or (start_queued 950 (some r)) r) (run_of first_run ∷ []))
    ≤ 1
reachable_runs-le_example = reachable_runs-le {Rest = List String} (
    starts 1 950 (
      acquires true 1 900 source (library ∷ []) (run_of first_run) (details_of first_run) here
        is_acquired))
