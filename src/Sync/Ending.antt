-- ===== src/Sync/Ending.antt =====
-- The loops over the pages of a library end.
use euvieouvi.Base.{
  ℕ, zero, suc, ◌+◌, ◌≤◌, ◌<◌, ◌≡◌, inl, inr, refl, String, List, [], Option, none, some, arith,
  Bool-cases, Option-cases,
}
use euvieouvi.Sync.Media.{
  ExternalMediaItem, ExternalWatchEvent, Page, PageRequest, HistoryCheckpoint, MediaKind,
}
use euvieouvi.Sync.Catalog.{Try, raised, returned}
use euvieouvi.Sync.Page.{Execution}
use euvieouvi.Sync.Scan.{
  Setup, Library, Turn, again, finished, aborted, Collected, collected, broken_off, media_stored,
  media_round, media_loop, history_stored, history_round, history_loop,
}
use euvieouvi.Sync.Library.{Plan, sync_library, history_part, after_media, plan, is_media, closed}

-- A page leads on to a later position within the bound, and does so by its number alone.
pub record IsAdvancing (Item : Type 0) (bound start : ℕ) (page : Page Item) : Type 0 where
  pub by_number : page.next_cursor ≡ none
  pub later : (n : ℕ) → page.next_start ≡ some n → (start < n) × (n ≤ bound)

module _ {Rest : Type 0} where
  abbrev pub Advances : ℕ → ℕ → Turn Rest → Type 0
  Advances bound start (again n seen e) = (start < n) × (n ≤ bound)
  Advances bound start _ = Unit

  abbrev pub Ends : Option (Collected Rest) → Type 0
  Ends o = (c : Collected Rest) × (o ≡ some c)

module _ {Rest : Type 0} (setup : Setup Rest) (library : Library) (bound : ℕ) where
  media_stored-Advances :
      (now start : ℕ) (seen : List String) (e : Execution Rest)
      (answer : Try (Page ExternalMediaItem))
      → ((page : Page ExternalMediaItem) → answer ≡ returned page → IsAdvancing _ bound start page)
      → Advances bound start (media_stored setup library now start seen e answer)
  unfolding media_stored
  media_stored-Advances now start seen e (raised detail) h = tt
  media_stored-Advances now start seen e (returned page) h = elim (Option-cases page.next_start) [
    | inl last ↦ rw (last, (h page refl).by_number) tt
    | inr (n, more) ↦ rw more ((h page refl).later n more)
  ]

  history_stored-Advances :
      (now start : ℕ) (e : Execution Rest) (answer : Try (Page ExternalWatchEvent))
      → ((page : Page ExternalWatchEvent) → answer ≡ returned page → IsAdvancing _ bound start page)
      → Advances bound start (history_stored setup library now e answer)
  unfolding history_stored
  history_stored-Advances now start e (raised detail) h = tt
  history_stored-Advances now start e (returned page) h = elim (Option-cases page.next_start) [
    | inl last ↦ rw (last, (h page refl).by_number) tt
    | inr (n, more) ↦ rw more ((h page refl).later n more)
  ]

  module _
      (media_advances : (kind : MediaKind) (request : PageRequest) (page : Page ExternalMediaItem)
        → setup.get_media_page library kind request ≡ returned page
        → IsAdvancing _ bound request.start page)
      (history_advances : (since : HistoryCheckpoint) (request : PageRequest)
          (page : Page ExternalWatchEvent)
        → setup.get_history_page library since request ≡ returned page
        → IsAdvancing _ bound request.start page) where
    media_round-Advances :
        (updated_since : Option ℕ) (k start : ℕ) (seen : List String) (e : Execution Rest)
        → Advances bound start (media_round setup library updated_since k start seen e)
    unfolding media_round
    media_round-Advances updated_since k start seen e = elim (Bool-cases (setup.is_cancelled k)) [
      | inl c ↦ rw c tt
      | inr c ↦ rw c (media_stored-Advances _ start seen _ _ (media_advances _ _))
    ]

    history_round-Advances :
        (since : HistoryCheckpoint) (k start : ℕ) (e : Execution Rest)
        → Advances bound start (history_round setup library since k start e)
    unfolding history_round
    history_round-Advances since k start e = elim (Bool-cases (setup.is_cancelled k)) [
      | inl c ↦ rw c tt
      | inr c ↦ rw c (history_stored-Advances _ start _ _ (history_advances _ _))
    ]

    media_loop-Ends :
        (updated_since : Option ℕ) (fuel k start : ℕ) (seen : List String) (e : Execution Rest)
        → bound < fuel + start
        → 0 < fuel
        → Ends (media_loop setup library updated_since fuel k start seen e)
    unfolding media_loop
    media_loop-Ends updated_since zero k start seen e far fueled = absurd (omega arith)
    media_loop-Ends updated_since (suc fuel) k start seen e far fueled =
        go
          (λ n s e' less within.
            media_loop-Ends updated_since fuel (suc k) n s e' (omega arith) (omega arith))
          (media_round setup library updated_since k start seen e)
          (media_round-Advances _ k start seen e)
      where
        go :
            ((n : ℕ) (s : List String) (e' : Execution Rest)
              → start < n
              → n ≤ bound
              → Ends (media_loop setup library updated_since fuel (suc k) n s e'))
            → (t : Turn Rest) → Advances bound start t
            → Ends (elim t [
              | again next now_seen e' ↦
                  media_loop setup library updated_since fuel (suc k) next now_seen e'
              | finished now_seen e' ↦ some (collected (suc k) now_seen e')
              | aborted reason e' ↦ some (broken_off reason e')
            ])
        go later (again n s e') (less, within) = later n s e' less within
        go later (finished s e') _ = (_, refl)
        go later (aborted r e') _ = (_, refl)

    history_loop-Ends :
        (since : HistoryCheckpoint) (fuel k start : ℕ) (e : Execution Rest)
        → bound < fuel + start
        → 0 < fuel
        → Ends (history_loop setup library since fuel k start e)
    unfolding history_loop
    history_loop-Ends since zero k start e far fueled = absurd (omega arith)
    history_loop-Ends since (suc fuel) k start e far fueled =
        go
          (λ n e' less within.
            history_loop-Ends since fuel (suc k) n e' (omega arith) (omega arith))
          (history_round setup library since k start e) (history_round-Advances since k start e)
      where
        go :
            ((n : ℕ) (e' : Execution Rest)
              → start < n
              → n ≤ bound
              → Ends (history_loop setup library since fuel (suc k) n e'))
            → (t : Turn Rest) → Advances bound start t
            → Ends (elim t [
              | again next _ e' ↦ history_loop setup library since fuel (suc k) next e'
              | finished _ e' ↦ some (collected (suc k) [] e')
              | aborted reason e' ↦ some (broken_off reason e')
            ])
        go later (again n s e') (less, within) = later n e' less within
        go later (finished s e') _ = (_, refl)
        go later (aborted r e') _ = (_, refl)

    history_part-Ends :
        (p : Plan) (fuel k start : ℕ) (e : Execution Rest)
        → bound < fuel
        → Ends (history_part setup library p fuel k start e)
    unfolding history_part
    history_part-Ends p fuel k start e enough =
        let (c, ended) = history_loop-Ends p.since fuel k start e (omega arith) (omega arith) in
        (closed setup library p c, rw (ended, history_part) refl)

    after_media-Ends :
        (p : Plan) (fuel : ℕ)
        → bound < fuel
        → (o : Option (Collected Rest)) → Ends o
        → Ends (after_media setup library p fuel o)
    unfolding after_media
    after_media-Ends p fuel enough none (c, e) = absurd (cc e)
    after_media-Ends p fuel enough (some (broken_off r e)) _ = (_, refl)
    after_media-Ends p fuel enough (some (collected k seen e)) _ =
        history_part-Ends p fuel k 0 _ enough

    -- Where every page leads on to a later position that the bound limits, the scan of a library ends by
    -- itself, whatever the checkpoint, the answers and the cancellations are: for fuel one round more
    -- than the bound is enough.
    pub sync_library-Ends :
        (fuel k : ℕ) (e : Execution Rest)
        → bound < fuel
        → Ends (sync_library setup library fuel k e)
    unfolding sync_library
    sync_library-Ends fuel k e enough =
        elim (Bool-cases (is_media (plan setup.services.json (setup.clock k) e.checkpoint).stage)) [
          | inl c ↦ rw c (
              after_media-Ends _ fuel enough _
                (media_loop-Ends _ fuel k _ [] _ (omega arith) (omega arith)))
          | inr c ↦ rw c (history_part-Ends _ fuel k _ _ enough)
        ]
