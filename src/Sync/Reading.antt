-- ===== src/Sync/Reading.antt =====
-- A scan of a library that is paged by position reads all of it.
use euvieouvi.Base.{
  ℕ, zero, suc, ◌+◌, ◌-◌, ◌≤◌, ◌<◌, ◌≡◌, inl, inr, refl, ap, ◌∙◌, String, true, false, Option, none,
  some, List, [], ◌++◌, arith, Bool-cases, length, ltb, ltb→lt, if◌then◌else◌, min,
}
use euvieouvi.Sync.Media.{ExternalMediaItem, Page, PageRequest, MediaKind}
use euvieouvi.Sync.Rows.{Summary, Stage, media, history}
use euvieouvi.Sync.Catalog.{returned}
use euvieouvi.Sync.Page.{Execution, persist_media_page}
use euvieouvi.Sync.Scan.{
  seen_ids, Setup, Library, Turn, again, finished, aborted, Collected, collected, broken_off,
  media_stored, media_round, media_loop, update_progress,
}
use euvieouvi.Sync.Slices.{drop, take, length-drop, length-take, seen_ids-page, seen_ids-last}
use euvieouvi.Sync.Accounting.{
  IsAccounted, resized-IsAccounted, both-IsAccounted, persist_media_page-IsAccounted,
}

-- The page of a server that has these items and pages them by position.
unfoldable pub page_of : List ExternalMediaItem → PageRequest → Page ExternalMediaItem
page_of items request = record {
  items = take request.size (drop request.start items);
  start = request.start;
  size = request.size;
  total_size = some (length items);
  next_start =
      if ltb (request.start + request.size) (length items)
      then some (request.start + request.size)
      else none;
  next_cursor = none;
  issues = [];
}

module _ {Rest : Type 0} (setup : Setup Rest) (library : Library) (items : List ExternalMediaItem)
    (quiet : (k : ℕ) → setup.is_cancelled k ≡ false) (sized : 0 < setup.page_size)
    (paged : (kind : MediaKind) (request : PageRequest)
      → setup.get_media_page library kind request ≡ returned (page_of items request)) where
  -- What a round has to show: the items that it read, and either where the next one starts or that there
  -- are no more.
  abbrev Reads : ℕ → List String → Execution Rest → Turn Rest → Type 0
  Reads start seen e (again next now_seen e') =
      (next ≡ start + setup.page_size)
      × (start + setup.page_size < length items)
      × (now_seen ≡ seen ++ seen_ids (take setup.page_size (drop start items)))
      × IsAccounted _ setup.page_size e e'
  Reads start seen e (finished now_seen e') =
      (now_seen ≡ seen ++ seen_ids (drop start items)) × IsAccounted _ (length items - start) e e'
  Reads start seen e (aborted reason e') = true ≡ false

  -- The page at a position, with the number of items that it has.
  page-IsAccounted :
      (n now start scanned next : ℕ) (total : Option ℕ) (stage : Stage) (e : Execution Rest)
      → min setup.page_size (length items - start) ≡ n
      → IsAccounted _ n e (
          persist_media_page setup.services now
            (take setup.page_size (drop start items))
            []
            scanned
            total
            stage
            next
            e)
  page-IsAccounted n now start scanned next total stage e sum = resized-IsAccounted counted (
      persist_media_page-IsAccounted setup.services now (take setup.page_size (drop start items)) []
        scanned total stage next e)
    where
      counted : length (take setup.page_size (drop start items)) + 0 ≡ n
      counted =
          omega
            (arith, length-take setup.page_size (drop start items), length-drop start items, sum)

  media_stored-Reads :
      (now start : ℕ) (seen : List String) (e : Execution Rest) (since : Option ℕ)
      → Reads start seen e (
          media_stored setup library now start seen e (
            returned (
              page_of items
                (record { start = start; size = setup.page_size; updated_since = since }))))
  unfolding media_stored page_of
  media_stored-Reads now start seen e since =
      elim (Bool-cases (ltb (start + setup.page_size) (length items))) [
        | inl more ↦
            let below = ltb→lt _ _ more in
            let within : min setup.page_size (length items - start) ≡ setup.page_size =
              omega arith in
            rw more (refl, ltb→lt _ _ more, refl, page-IsAccounted _ now start _ _ _ media e within)
        | inr last ↦
            let above : length items ≤ start + setup.page_size = ground arith in
            let rest : min setup.page_size (length items - start) ≡ length items - start =
              omega arith in
            rw last (
              ap (λ t. seen ++ t) (seen_ids-last start setup.page_size items above),
              page-IsAccounted _ now start _ _ _ history e rest,
            )
      ]

  progressed-IsAccounted :
      (now : ℕ) (summary : Summary) (e : Execution Rest)
      → IsAccounted _ 0 e (update_progress now summary e)
  unfolding update_progress
  progressed-IsAccounted now summary e = record {
    read = omega arith;
    read_of_library = omega arith;
    outcomes = omega arith;
    inserted_alike = refl;
    updated_alike = refl;
    failures = refl;
    reported = omega arith;
  }

  -- What the whole loop has to show from a position on.
  abbrev pub ReadsAll : ℕ → List String → Execution Rest → Option (Collected Rest) → Type 0
  ReadsAll start seen e o =
      (k : ℕ) × (e' : Execution Rest) × (o
        ≡ some (collected k (seen ++ seen_ids (drop start items)) e'))
      × IsAccounted _ (length items - start) e e'

  from_progress :
      (now start : ℕ) (seen : List String) (summary : Summary) (e : Execution Rest) (t : Turn Rest)
      → Reads start seen (update_progress now summary e) t
      → Reads start seen e t
  from_progress now start seen summary e (again n s e') (at, below, ids, h) =
      (at, below, ids, both-IsAccounted (omega arith) (progressed-IsAccounted now summary e) h)
  from_progress now start seen summary e (finished s e') (ids, h) =
      (ids, both-IsAccounted (omega arith) (progressed-IsAccounted now summary e) h)
  from_progress now start seen summary e (aborted r e') h = h

  media_round-Reads :
      (since : Option ℕ) (k start : ℕ) (seen : List String) (e : Execution Rest)
      → Reads start seen e (media_round setup library since k start seen e)
  unfolding media_round
  media_round-Reads since k start seen e =
      rw (quiet k, paged)
        (from_progress _ start seen _ e _ (media_stored-Reads (setup.clock k) start seen _ since))

  after_turn :
      (since : Option ℕ) (fuel k start : ℕ) (seen : List String) (e : Execution Rest)
      → ((n : ℕ) (s : List String) (e' : Execution Rest)
          → n ≡ start + setup.page_size
          → n < length items
          → ReadsAll n s e' (media_loop setup library since fuel (suc k) n s e'))
      → (t : Turn Rest) → Reads start seen e t
      → ReadsAll start seen e (elim t [
        | again next now_seen e' ↦ media_loop setup library since fuel (suc k) next now_seen e'
        | finished now_seen e' ↦ some (collected (suc k) now_seen e')
        | aborted reason e' ↦ some (broken_off reason e')
      ])
  after_turn since fuel k start seen e rest (again n s e') (at, below, ids, h) =
      let (k', e'', ended, h') = rest n s e' at (omega (arith, at)) in
      let all : s ++ seen_ids (drop n items) ≡ seen ++ seen_ids (drop start items) =
        rw (ids, at) (seen_ids-page start setup.page_size items seen) in
      (
        k',
        e'',
        ended ∙ ap (λ t. some (collected k' t e'')) all,
        both-IsAccounted (omega arith) h h',
      )
  after_turn since fuel k start seen e rest (finished s e') (ids, h) =
      (suc k, e', ap (λ t. some (collected (suc k) t e')) ids, h)
  after_turn since fuel k start seen e rest (aborted r e') h = absurd (cc h)

  -- Where nothing is cancelled and the server pages its items by position, the loop over a library ends
  -- by itself for fuel above the number of items. The ids that it has then seen in addition are those of
  -- the items from its start on, each item's once and in their order; as many items are counted as read
  -- as there are from the start on, and each has one outcome.
  pub media_loop-ReadsAll :
      (since : Option ℕ) (fuel k start : ℕ) (seen : List String) (e : Execution Rest)
      → length items < fuel + start
      → 0 < fuel
      → ReadsAll start seen e (media_loop setup library since fuel k start seen e)
  unfolding media_loop
  media_loop-ReadsAll since zero k start seen e far fueled = absurd (omega arith)
  media_loop-ReadsAll since (suc fuel) k start seen e far fueled =
      after_turn since fuel k start seen e
        (λ n s e' at below.
          media_loop-ReadsAll since fuel (suc k) n s e' (omega arith) (omega arith))
        (media_round setup library since k start seen e) (media_round-Reads since k start seen e)
