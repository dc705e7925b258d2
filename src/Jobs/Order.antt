-- ===== src/Jobs/Order.antt =====
-- Which row `claim_next_job` takes.
use euvieouvi.Base.{
  ℕ, ◌≤◌, ◌≡◌, ◌≢◌, ◌⊎◌, inl, inr, refl, String, true, false, not, none, some, List, [], ◌∷◌, arith,
  Bool-cases, Option-cases, All, All-map, All-at, All-Memᴰ, Memᴰ, find_first-some, find_first-none,
  find_first-order_by, count-none, count-pos, All-tabulate, ap, any-false_of_All, All-order_by,
  All-of_order_by, All-where_, All-of_where_, IsOrder, where_, count, leb, ◌==◌, if◌then◌else◌,
  order_by,
}
use euvieouvi.Jobs.Row.{JobRun, is_queued}
use euvieouvi.Jobs.Claim.{
  before, blocks, is_available, is_blocked, is_candidate, pick, has_running, is_claimable,
  claim_update, claim_next_job,
}

before-IsOrder : IsOrder before
unfolding before
before-IsOrder = record { total = λ a b e. ground arith; trans = λ a b c p q. ground arith }

abbrev pub queue_of : List JobRun → List JobRun
queue_of rows = where_ (λ r. is_queued r.status) rows

-- What may be claimed: queued, available, and with no earlier queued dependency.
abbrev pub IsEligible : ℕ → List JobRun → JobRun → Type 0
IsEligible now rows r = (is_candidate now r ≡ true) × (is_blocked (queue_of rows) r ≡ false)

pick-IsEligible :
    (now : ℕ) (rows : List JobRun) (c : JobRun)
    → pick now rows ≡ some c
    → Memᴰ c rows
      × IsEligible now rows c
      × All (λ r. IsEligible now rows r → before c r ≡ true) rows
unfolding pick
pick-IsEligible now rows c e =
    let unblocked = λ (item : JobRun). not (is_blocked (queue_of rows) item) in
    let candidates = where_ (is_candidate now) rows in
    let ((listed, candidate), free) =
      find_first-some (λ r. Memᴰ r rows × (is_candidate now r ≡ true)) unblocked
        (order_by before candidates) c e
        (All-order_by before _ candidates (All-where_ _ (is_candidate now) rows (All-Memᴰ rows))) in
    (
      listed,
      (candidate, ground arith),
      All-map rows (λ r least eligible. least eligible.0 (rw eligible.1))
          (All-of_where_ _ (is_candidate now) rows
            (find_first-order_by before-IsOrder unblocked candidates c e)),
    )

module _ (worker_id : String) (now : ℕ) (rows : List JobRun) where
  claim-pick-none : pick now rows ≡ none → claim_next_job worker_id now rows ≡ (none, rows)
  unfolding claim_next_job
  claim-pick-none e = rw (e, claim_next_job)

  claim-pick-some :
      (c : JobRun)
      → pick now rows ≡ some c
      → claim_next_job worker_id now rows ≡ (
        (if 0 == count (is_claimable c.id rows) rows then none else some c.id),
        claim_update worker_id now c.id rows,
      )
  unfolding claim_next_job
  claim-pick-some c e = rw (e, claim_next_job)

  -- An UPDATE that changed a row found nothing running.
  idle_of_count :
      (id : ℕ) → (0 == count (is_claimable id rows) rows) ≡ false → has_running rows ≡ false
  idle_of_count id e = elim (Bool-cases (has_running rows)) [
    | inl busy ↦
        let unchanged =
          count-none (is_claimable id rows) rows (All-tabulate rows (λ r. ground arith)) in
        absurd (ground arith)
    | inr idle ↦ idle
  ]

-- A claim that succeeds takes, of the eligible rows, the one that comes first by priority, time of
-- availability and id; nothing else is running, and the claiming UPDATE has been made.
pub claim_next_job-first :
    (worker_id : String) (now id : ℕ) (rows : List JobRun)
    → (claim_next_job worker_id now rows).0 ≡ some id
    → (c : JobRun) × (c.id ≡ id)
      × Memᴰ c rows
      × IsEligible now rows c
      × All (λ r. IsEligible now rows r → before c r ≡ true) rows
      × (has_running rows ≡ false)
      × ((claim_next_job worker_id now rows).1 ≡ claim_update worker_id now id rows)
claim_next_job-first worker_id now id rows e = elim (Option-cases (pick now rows)) [
  | inl p ↦ absurd (cc (claim-pick-none worker_id now rows p))
  | inr (c, p) ↦
      let result = claim-pick-some worker_id now rows c p in
      let (listed, eligible, first) = pick-IsEligible now rows c p in
      elim (Bool-cases (0 == count (is_claimable c.id rows) rows)) [
        | inl unchanged ↦ absurd (ground arith)
        | inr changed ↦
            let same : c.id ≡ id = ground arith in
            (
              c,
              same,
              listed,
              eligible,
              first,
              idle_of_count worker_id now rows c.id changed,
              rw result (ap (λ i. claim_update worker_id now i rows) same),
            )
      ]
]

-- Some row of a selection has the least id.
least_id :
    (rows : List JobRun) → (rows ≡ []) ⊎ ((m : JobRun) × Memᴰ m rows × All (λ r. m.id ≤ r.id) rows)
least_id [] = inl refl
least_id (r ∷ rows) = elim (least_id rows) [
  | inl e ↦ inr (r, Memᴰ.head refl, (omega arith, rw e tt))
  | inr (m, listed, least) ↦ elim (Bool-cases (leb r.id m.id)) [
    | inl e ↦ inr (r, Memᴰ.head refl, (omega arith, All-map rows (λ x h. ground arith) least))
    | inr e ↦ inr (m, Memᴰ.tail listed, (ground arith, least))
  ]
]

-- The oldest queued row waits for no other.
oldest_free :
    (queue : List JobRun) (m : JobRun) → All (λ r. m.id ≤ r.id) queue → is_blocked queue m ≡ false
unfolding is_blocked blocks
oldest_free queue m least =
    any-false_of_All (blocks m) queue (All-map queue (λ r h. ground arith) least)

module _ (now : ℕ) (rows : List JobRun)
    (available : All (λ r. is_queued r.status ≡ true → is_available now r ≡ true) rows) where
  pick-ne-none : queue_of rows ≢ [] → pick now rows ≢ none
  unfolding pick
  pick-ne-none waiting e = elim (least_id (queue_of rows)) [
    | inl empty ↦ waiting empty
    | inr (m, queued, least) ↦
        let (listed, is_queued_m) =
          All-at _ (queue_of rows) (All-where_ (λ r. Memᴰ r rows) _ rows (All-Memᴰ rows)) queued in
        let all_blocked =
          All-of_where_ _ (is_candidate now) rows
            (All-of_order_by before _ (where_ (is_candidate now) rows) (find_first-none _ _ e)) in
        let now_available = All-at _ rows available listed is_queued_m in
        let free = oldest_free (queue_of rows) m least in
        let blocked = All-at _ rows all_blocked listed (rw (is_queued_m, now_available)) in
        ground arith
  ]

-- Where nothing runs and every queued row is available, the dependencies never block the whole
-- queue: a claim on a queue that is not empty succeeds.
pub claim_next_job-progress :
    (worker_id : String) (now : ℕ) (rows : List JobRun)
    → has_running rows ≡ false
    → All (λ r. is_queued r.status ≡ true → is_available now r ≡ true) rows
    → queue_of rows ≢ []
    → (id : ℕ) × ((claim_next_job worker_id now rows).0 ≡ some id)
claim_next_job-progress worker_id now rows idle available waiting =
    elim (Option-cases (pick now rows)) [
      | inl e ↦ absurd (pick-ne-none now rows available waiting e)
      | inr (c, e) ↦
          let (listed, eligible, _) = pick-IsEligible now rows c e in
          let hit : is_claimable c.id rows c ≡ true = ground arith in
          let changed = count-pos (is_claimable c.id rows) rows c listed hit in
          let result = claim-pick-some worker_id now rows c e in (c.id, ground arith)
    ]
