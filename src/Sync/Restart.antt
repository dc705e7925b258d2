-- ===== src/Sync/Restart.antt =====
-- A collection of media that was cancelled, and the new run that goes on from its checkpoint.
use euvieouvi.Base.{ℕ, ◌+◌, ◌≡◌, String, true, false, Option, none, some, List, []}
use euvieouvi.Sync.Media.{Page}
use euvieouvi.Sync.Rows.{media}
use euvieouvi.Sync.Checkpoint.{resume_position}
use euvieouvi.Sync.Page.{Execution}
use euvieouvi.Sync.Scan.{
  Setup, Library, Turn, again, finished, aborted, Collected, collected, broken_off, media_loop,
}
use euvieouvi.Sync.Resume.{undisturbed}

module _ {Rest : Type 0} where
  -- Two collections end alike: for the same reason, and with the same catalogue.
  abbrev pub EndsAlike : Option (Collected Rest) → Option (Collected Rest) → Type 0
  EndsAlike none none = Unit
  EndsAlike (some (collected k seen e)) (some (collected j seen' f)) = (k ≡ j) × (e.world ≡ f.world)
  EndsAlike (some (broken_off r e)) (some (broken_off q f)) = (r ≡ q) × (e.world ≡ f.world)
  EndsAlike _ _ = true ≡ false

  abbrev TurnsAlike : Turn Rest → Turn Rest → Type 0
  TurnsAlike (again n seen e) (again m seen' f) = (n ≡ m) × (e.world ≡ f.world)
  TurnsAlike (finished seen e) (finished seen' f) = e.world ≡ f.world
  TurnsAlike (aborted r e) (aborted q f) = (r ≡ q) × (e.world ≡ f.world)
  TurnsAlike _ _ = true ≡ false

module _ {Rest : Type 0} (setup : Setup Rest) (library : Library) (updated_since : Option ℕ) where
  -- What a new run `f` does from the state `e'` of a cancelled one on, where its `seen` is empty and its
  -- counters are its own.
  pub record IsRestartable (fuel k start : ℕ) (seen : List String) (e e' : Execution Rest)
      : Type 0 where
    pub rounds : ℕ
    pub fuel_left : ℕ
    pub position : ℕ
    pub spent : rounds + fuel_left ≡ fuel
    pub resumed : resume_position setup.services.json e'.checkpoint ≡ (media, position)
    pub restarted :
        (f : Execution Rest)
        → f.world ≡ e'.world
        → EndsAlike
            (media_loop
              (undisturbed setup library updated_since)
              library
              updated_since
              fuel
              k
              start
              seen
              e)
            (media_loop
              (undisturbed setup library updated_since)
              library
              updated_since
              fuel_left
              (k + rounds)
              position
              []
              f)
