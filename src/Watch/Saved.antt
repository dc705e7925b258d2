-- ===== src/Watch/Saved.antt =====
-- What is stored of the candidates that succeeded in a run (sync/watch_sync.py).
use euvieouvi.Base.{
  ℕ, ◌≡◌, ◌⊎◌, inl, inr, refl, true, false, List, [], ◌∷◌, ◌++◌, Memᴰ, arith, any, All, All-map,
  All-at, ◌==◌, leb, length, Bool-cases,
}
use euvieouvi.Watch.Rows.{WatchState, WatchSyncCandidate}
use euvieouvi.Watch.Record.{target_items, record_candidate, record_successes}
use euvieouvi.Watch.View.{state_at}
use euvieouvi.Watch.Growth.{record_successes-Grows}
use euvieouvi.Watch.Persisted.{is_completed, Grows-is_completed, record_items-is_completed}
use euvieouvi.Watch.Round.{Round, Tables, Work, persist, persist_batch_size, add_success}

-- A completion that is stored for every item of its targets.
abbrev pub IsSaved : List WatchState → WatchSyncCandidate → Type 0
IsSaved states c =
    (c.completed ≡ false)
    ⊎ All (λ item. is_completed (state_at states item c.target_source_id) ≡ true)
        (target_items c.targets)

listed_in_itself : (items : List ℕ) → All (λ i. any (λ j. j == i) items ≡ true) items
unfolding any
listed_in_itself [] = tt
listed_in_itself (i ∷ items) =
    (ground arith, All-map items (λ j k. ground arith) (listed_in_itself items))

record_candidate-IsSaved :
    (now : ℕ) (states : List WatchState) (c : WatchSyncCandidate)
    → IsSaved (record_candidate now states c) c
unfolding record_candidate
record_candidate-IsSaved now states c = elim (Bool-cases c.completed) [
  | inl e ↦ inr (
      All-map (target_items c.targets)
        (λ item m. record_items-is_completed now c (target_items c.targets) states item e m)
        (listed_in_itself (target_items c.targets)))
  | inr e ↦ inl e
]

IsSaved-kept :
    (now : ℕ) (states : List WatchState) (others : List WatchSyncCandidate) (c : WatchSyncCandidate)
    → IsSaved states c
    → IsSaved (record_successes now states others) c
IsSaved-kept now states others c (inl e) = inl e
IsSaved-kept now states others c (inr h) = inr (
    All-map (target_items c.targets)
      (λ item e.
        Grows-is_completed (state_at states item c.target_source_id)
          (state_at (record_successes now states others) item c.target_source_id)
          (record_successes-Grows now others states item c.target_source_id) e)
      h)

pub record_successes-IsSaved :
    (now : ℕ) (candidates : List WatchSyncCandidate) (states : List WatchState)
    → All (IsSaved (record_successes now states candidates)) candidates
unfolding record_successes
record_successes-IsSaved now [] states = tt
record_successes-IsSaved now (c ∷ candidates) states = (
  IsSaved-kept now (record_candidate now states c) candidates c
      (record_candidate-IsSaved now states c),
  record_successes-IsSaved now candidates (record_candidate now states c),
)

-- A candidate that is stored or waits for its batch.
abbrev pub IsKept : Work → WatchSyncCandidate → Type 0
IsKept work c = IsSaved work.tables.states c ⊎ Memᴰ c work.pending_successes

pub persist-IsSaved :
    (now : ℕ) (pending : List WatchSyncCandidate) (t : Tables) (c : WatchSyncCandidate)
    → IsSaved t.states c ⊎ Memᴰ c pending
    → IsSaved (persist now pending t).states c
unfolding persist
persist-IsSaved now pending t c (inl h) = IsSaved-kept now t.states pending c h
persist-IsSaved now pending t c (inr m) =
    All-at _ pending (record_successes-IsSaved now pending t.states) m

pub Memᴰ-snoc : {A : Type 0} (a b : A) (xs : List A) → Memᴰ a xs → Memᴰ a (xs ++ b ∷ [])
Memᴰ-snoc a b [] m = elim m [ ]
Memᴰ-snoc a b (x ∷ xs) (Memᴰ.head e) = Memᴰ.head e
Memᴰ-snoc a b (x ∷ xs) (Memᴰ.tail m) = Memᴰ.tail (Memᴰ-snoc a b xs m)

pub Memᴰ-last : {A : Type 0} (b : A) (xs : List A) → Memᴰ b (xs ++ b ∷ [])
Memᴰ-last b [] = Memᴰ.head refl
Memᴰ-last b (x ∷ xs) = Memᴰ.tail (Memᴰ-last b xs)

module _ (round : Round) (work : Work) (c : WatchSyncCandidate) where
  abbrev pub queue : List WatchSyncCandidate
  queue = work.pending_successes ++ round.candidate ∷ []

  pub queued-IsKept :
      IsSaved work.tables.states c ⊎ Memᴰ c queue → IsKept (add_success round work) c
  unfolding add_success
  queued-IsKept h = elim (Bool-cases (leb persist_batch_size (length queue))) [
    | inl e ↦ rw e (inl (persist-IsSaved round.now queue work.tables c h))
    | inr e ↦ rw e h
  ]
