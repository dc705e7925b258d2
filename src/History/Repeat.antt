-- ===== src/History/Repeat.antt =====
-- An event that arrives twice is stored once: `persist_event` of sync/persistence.py.
use euvieouvi.Base.{ℕ, ◌≡◌, String, false, Option}
use euvieouvi.History.Row.{ExternalEvent, Tables}
use euvieouvi.History.Event.{
  Persisted, unknown_media, changed_media, answered, Setup, persist_for, persist_event,
}

module _ (setup : Setup) (origin : String) (event : ExternalEvent) where
  -- The second call answers that nothing was inserted, and leaves what the first one left.
  abbrev Settles : ℕ → Option String → Persisted → Type 0
  Settles item name (unknown_media u) = Unit
  Settles item name (changed_media u) = Unit
  Settles item name (answered inserted t) =
      persist_for setup origin event item name t ≡ answered false t

  -- The same for the whole call: an error stores nothing, and an answer is final.
  abbrev pub IsFinal : Tables → Persisted → Type 0
  IsFinal t (unknown_media u) = u ≡ t
  IsFinal t (changed_media u) = u ≡ t
  IsFinal t (answered inserted u) = persist_event setup origin event u ≡ answered false u

  -- Only the references are read to find the item, and they stay.
  abbrev KeepsReferences : Tables → Persisted → Type 0
  KeepsReferences t (unknown_media u) = u ≡ t
  KeepsReferences t (changed_media u) = u ≡ t
  KeepsReferences t (answered inserted u) = u.references ≡ t.references
