-- ===== src/Sync/Closing.antt =====
-- An execution over the libraries of a run ends, and leaves nothing open.
use euvieouvi.Base.{
  ℕ, suc, ◌<◌, ◌≡◌, ◌⊎◌, inl, inr, refl, Bool, true, false, some, String, List, [], ◌∷◌, map, arith,
  Bool-cases, All,
}
use euvieouvi.Jobs.Row.{SyncStatus, succeeded, failed, interrupted, is_active}
use euvieouvi.Sync.Media.{
  ExternalMediaItem, ExternalWatchEvent, Page, PageRequest, HistoryCheckpoint, MediaKind,
}
use euvieouvi.Sync.Rows.{Summary}
use euvieouvi.Sync.Catalog.{returned}
use euvieouvi.Sync.Page.{Execution}
use euvieouvi.Sync.Scan.{
  Setup, Library, Abort, cancelled, unavailable, Collected, collected, broken_off,
}
use euvieouvi.Sync.Library.{sync_library}
use euvieouvi.Sync.Run.{
  Slot, RunState, Executed, executed, stopped, execute_slots, before_library, after_library,
  finish_slot, finish_run, conclude, finish_success, finish_failure,
}
use euvieouvi.Sync.Ending.{IsAdvancing, Ends, sync_library-Ends}

-- Neither the run nor a library of it is queued or running.
pub record IsClosed (Rest : Type 0) (s : RunState Rest) : Type 0 where
  pub run_closed : is_active s.run.status ≡ false
  pub libraries_closed : All (λ slot. is_active slot.detail.status ≡ false) s.slots

finish_slot-closed :
    (now : ℕ) (status : SyncStatus) (summary : Summary) (s : Slot)
    → is_active status ≡ false
    → is_active (finish_slot now status summary s).detail.status ≡ false
finish_slot-closed now status summary s h = ground arith

finish_slots-closed :
    (now : ℕ) (status : SyncStatus) (summary : Summary) (slots : List Slot)
    → is_active status ≡ false
    → All
        (λ slot. is_active slot.detail.status ≡ false)
        (map (finish_slot now status summary) slots)
finish_slots-closed now status summary [] h = tt
finish_slots-closed now status summary (s ∷ slots) h =
    (finish_slot-closed now status summary s h, finish_slots-closed now status summary slots h)

module _ {Rest : Type 0} where
  Collected-cases :
      (c : Collected Rest)
      → ((k : ℕ) × (seen : List String) × (e : Execution Rest) × (c ≡ collected k seen e))
        ⊎ ((reason : Abort) × (e : Execution Rest) × (c ≡ broken_off reason e))
  Collected-cases (collected k seen e) = inl (k, seen, e, refl)
  Collected-cases (broken_off reason e) = inr (reason, e, refl)

  finish_run-IsClosed :
      (now : ℕ) (status : SyncStatus) (summary : Summary) (s : RunState Rest)
      → is_active status ≡ false
      → IsClosed _ (finish_run now status summary s)
  unfolding finish_run
  finish_run-IsClosed now status summary s h = record {
    run_closed = h;
    libraries_closed = finish_slots-closed now status summary s.slots h;
  }

  finish_run-status :
      (now : ℕ) (status : SyncStatus) (summary : Summary) (s : RunState Rest)
      → status ≡ (finish_run now status summary s).run.status
  unfolding finish_run
  finish_run-status now status summary s = refl

  -- Closed, with the status that is answered; but after a success that is not finalized left as the loop
  -- left it, for the caller, who closes it by `finish_success`.
  abbrev pub IsEnded : Bool → ℕ → Executed Rest → SyncStatus × RunState Rest → Type 0
  IsEnded true now x (status, s) = (status ≡ s.run.status) × IsClosed _ s
  IsEnded false now (stopped reason left) (status, s) = (status ≡ s.run.status) × IsClosed _ s
  IsEnded false now (executed left) (status, s) =
      (status ≡ succeeded)
      × (s ≡ left)
      × ((summary : Summary) → IsClosed _ (finish_success now summary s))

  pub finish_success-IsClosed :
      (now : ℕ) (summary : Summary) (s : RunState Rest) → IsClosed _ (finish_success now summary s)
  unfolding finish_success
  finish_success-IsClosed now summary s = finish_run-IsClosed now succeeded summary s refl

  pub finish_failure-IsClosed :
      (now : ℕ) (category detail : String) (summary : Summary) (s : RunState Rest)
      → IsClosed _ (finish_failure now category detail summary s)
  unfolding finish_failure
  finish_failure-IsClosed now category detail summary s =
      finish_run-IsClosed now failed summary _ refl

  conclude-IsEnded :
      (finalize_on_success : Bool) (now : ℕ) (category : String) (x : Executed Rest)
      → IsEnded finalize_on_success now x (conclude finalize_on_success now category x)
  unfolding conclude
  conclude-IsEnded true now category (executed s) =
      (finish_run-status now succeeded _ s, finish_run-IsClosed now succeeded _ s refl)
  conclude-IsEnded false now category (executed s) =
      (refl, refl, λ summary. finish_success-IsClosed now summary s)
  conclude-IsEnded true now category (stopped cancelled s) =
      (finish_run-status now interrupted _ s, finish_run-IsClosed now interrupted _ s refl)
  conclude-IsEnded false now category (stopped cancelled s) =
      (finish_run-status now interrupted _ s, finish_run-IsClosed now interrupted _ s refl)
  conclude-IsEnded true now category (stopped (unavailable detail) s) =
      (finish_run-status now failed _ _, finish_run-IsClosed now failed _ _ refl)
  conclude-IsEnded false now category (stopped (unavailable detail) s) =
      (finish_run-status now failed _ _, finish_run-IsClosed now failed _ _ refl)

  pub conclude-IsClosed :
      (now : ℕ) (category : String) (x : Executed Rest)
      → IsClosed _ (conclude true now category x).1
  conclude-IsClosed now category x = (conclude-IsEnded true now category x).1

  module _ (setup : Setup Rest) (fuel : ℕ)
      (ends : (library : Library) (k : ℕ) (e : Execution Rest)
        → Ends (sync_library setup library fuel k e)) where
    execute_slots-some :
        (k : ℕ) (slots : List Slot) (s : RunState Rest)
        → (x : Executed Rest) × (execute_slots setup fuel k slots s ≡ some x)
    unfolding execute_slots
    execute_slots-some k [] s = (_, refl)
    execute_slots-some k (slot ∷ slots) s = elim (Bool-cases (setup.is_cancelled k)) [
      | inl c ↦ rw c (_, refl)
      | inr c ↦
          let (outcome, ended) = ends slot.library (suc k) (before_library s slot) in
          elim (Collected-cases outcome) [
            | inl (k', seen, e, eq) ↦
                rw (c, ended, eq) (execute_slots-some k' slots (after_library s.slots slot [] e))
            | inr (reason, e, eq) ↦ rw (c, ended, eq) (_, refl)
          ]
    ]

  -- Where every page of every library leads on to a later position that the bound limits, the execution
  -- of a run ends by itself for fuel above the bound, whatever the answers and cancellations are. Neither
  -- the run nor any of its libraries is then queued or running, and the run has the status that is
  -- answered. Only a run that succeeded and is not finalized on success is left as the loop left it, and
  -- `finish_success` closes it.
  pub execution-IsClosed :
      (setup : Setup Rest) (bound fuel k now : ℕ) (finalize_on_success : Bool) (category : String)
      (slots : List Slot) (s : RunState Rest)
      → ((library : Library) (kind : MediaKind) (request : PageRequest)
            (page : Page ExternalMediaItem)
          → setup.get_media_page library kind request ≡ returned page
          → IsAdvancing _ bound request.start page)
      → ((library : Library) (since : HistoryCheckpoint) (request : PageRequest)
            (page : Page ExternalWatchEvent)
          → setup.get_history_page library since request ≡ returned page
          → IsAdvancing _ bound request.start page)
      → bound < fuel
      → (x : Executed Rest) × (execute_slots setup fuel k slots s ≡ some x)
        × IsEnded finalize_on_success now x (conclude finalize_on_success now category x)
  execution-IsClosed setup bound fuel k now finalize_on_success category slots s media_advances
        history_advances enough =
      let (x, ended) =
        execute_slots-some setup fuel
          (λ library k e.
            sync_library-Ends setup library bound (media_advances library)
              (history_advances library) fuel k e enough)
          k slots s in
      (x, ended, conclude-IsEnded finalize_on_success now category x)
