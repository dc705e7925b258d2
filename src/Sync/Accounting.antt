-- ===== src/Sync/Accounting.antt =====
-- The counters and the error rows of a page.
use euvieouvi.Base.{
  ℕ, ◌+◌, ◌≤◌, ◌≡◌, refl, Bool, true, false, Option, some, List, [], ◌∷◌, ◌++◌, arith, length,
}
use euvieouvi.Sync.Media.{ExternalMediaItem, PageIssue}
use euvieouvi.Sync.Rows.{SyncRun, Stage}
use euvieouvi.Sync.Catalog.{ItemClassification, inserted, updated, unchanged, Services}
use euvieouvi.Sync.Persist.{World, Persisted, stored, unstored, persist_media_with_repair}
use euvieouvi.Sync.Page.{
  Execution, page_error, item_error, repair_notes, media_issue, media_issues, classified,
  event_counted, item_read, recorded, media_item, media_items, persist_media_page,
}

length-++ : {A : Type 0} (xs ys : List A) → length (xs ++ ys) ≡ length xs + length ys
length-++ [] ys = omega arith
length-++ (x ∷ xs) ys = omega (arith, length-++ xs ys)

-- The items of a run by their outcome.
abbrev pub settled : SyncRun → ℕ
settled r = r.items_inserted + r.items_updated + r.items_unchanged + r.items_failed

-- `n` items more were read: each has one outcome, both rows count the same reads, insertions, updates
-- and failures, and each failure has an error row.
pub record IsAccounted (Rest : Type 0) (n : ℕ) (e e' : Execution Rest) : Type 0 where
  pub read : e'.run.items_read ≡ e.run.items_read + n
  pub read_of_library : e'.detail.items_read ≡ e.detail.items_read + n
  pub outcomes : settled e'.run ≡ settled e.run + n
  pub inserted_alike :
      e'.detail.items_inserted + e.run.items_inserted
      ≡ e.detail.items_inserted + e'.run.items_inserted
  pub updated_alike :
      e'.detail.items_updated + e.run.items_updated ≡ e.detail.items_updated + e'.run.items_updated
  pub failures :
      e'.detail.items_failed + e.run.items_failed ≡ e.detail.items_failed + e'.run.items_failed
  pub reported : length e.errors + e'.run.items_failed ≤ length e'.errors + e.run.items_failed

module _ {Rest : Type 0} where
  none-IsAccounted : (e : Execution Rest) → IsAccounted _ 0 e e
  none-IsAccounted e = record {
    read = omega arith;
    read_of_library = omega arith;
    outcomes = omega arith;
    inserted_alike = refl;
    updated_alike = refl;
    failures = refl;
    reported = omega arith;
  }

  pub resized-IsAccounted :
      {m n : ℕ} {e e' : Execution Rest} → m ≡ n → IsAccounted _ m e e' → IsAccounted _ n e e'
  resized-IsAccounted same h = record {
    read = omega (arith, h.read, same);
    read_of_library = omega (arith, h.read_of_library, same);
    outcomes = omega (arith, h.outcomes, same);
    inserted_alike = h.inserted_alike;
    updated_alike = h.updated_alike;
    failures = h.failures;
    reported = h.reported;
  }

  pub both-IsAccounted :
      {m n total : ℕ} {e e' e'' : Execution Rest}
      → total ≡ m + n
      → IsAccounted _ m e e'
      → IsAccounted _ n e' e''
      → IsAccounted _ total e e''
  both-IsAccounted sum h k = record {
    read = omega (arith, h.read, k.read);
    read_of_library = omega (arith, h.read_of_library, k.read_of_library);
    outcomes = omega (arith, h.outcomes, k.outcomes);
    inserted_alike = omega (arith, h.inserted_alike, k.inserted_alike);
    updated_alike = omega (arith, h.updated_alike, k.updated_alike);
    failures = omega (arith, h.failures, k.failures);
    reported = omega (arith, h.reported, k.reported);
  }

  media_issue-IsAccounted :
      (e : Execution Rest) (issue : PageIssue) → IsAccounted _ 1 e (media_issue e issue)
  unfolding media_issue
  media_issue-IsAccounted e issue = record {
    read = omega arith;
    read_of_library = omega arith;
    outcomes = omega arith;
    inserted_alike = omega arith;
    updated_alike = omega arith;
    failures = omega arith;
    reported = omega (arith, length-++ e.errors (page_error e issue ∷ []));
  }

  media_issues-IsAccounted :
      (issues : List PageIssue) (e : Execution Rest)
      → IsAccounted _ (length issues) e (media_issues issues e)
  unfolding media_issues
  media_issues-IsAccounted [] e = none-IsAccounted e
  media_issues-IsAccounted (issue ∷ issues) e =
      both-IsAccounted (omega arith) (media_issue-IsAccounted e issue)
        (media_issues-IsAccounted issues (media_issue e issue))

  -- Classifying a stored item gives it one outcome and touches neither reads nor failures.
  classified_counts :
      (c : ItemClassification) (b : Bool) (e : Execution Rest)
      → let e' : Execution Rest = event_counted b (classified c e) in
        (settled e'.run ≡ settled e.run + 1)
        × (e'.run.items_read ≡ e.run.items_read)
        × (e'.detail.items_read ≡ e.detail.items_read)
        × (e'.run.items_failed ≡ e.run.items_failed)
        × (e'.detail.items_failed ≡ e.detail.items_failed)
        × (e'.detail.items_inserted + e.run.items_inserted
            ≡ e.detail.items_inserted + e'.run.items_inserted)
        × (e'.detail.items_updated + e.run.items_updated
            ≡ e.detail.items_updated + e'.run.items_updated)
  unfolding classified event_counted
  classified_counts inserted true e =
      (omega arith, refl, refl, refl, refl, omega arith, omega arith)
  classified_counts inserted false e =
      (omega arith, refl, refl, refl, refl, omega arith, omega arith)
  classified_counts updated true e = (omega arith, refl, refl, refl, refl, omega arith, omega arith)
  classified_counts updated false e =
      (omega arith, refl, refl, refl, refl, omega arith, omega arith)
  classified_counts unchanged true e =
      (omega arith, refl, refl, refl, refl, omega arith, omega arith)
  classified_counts unchanged false e =
      (omega arith, refl, refl, refl, refl, omega arith, omega arith)

  recorded-IsAccounted :
      (item : ExternalMediaItem) (answer : Persisted) (w : World Rest) (e : Execution Rest)
      → IsAccounted _ 1 e (recorded item answer (record (item_read e) { world = w }))
  unfolding recorded item_read
  recorded-IsAccounted item (unstored detail repaired) w e = record {
    read = omega arith;
    read_of_library = omega arith;
    outcomes = omega arith;
    inserted_alike = omega arith;
    updated_alike = omega arith;
    failures = omega arith;
    reported = omega (
      arith,
      length-++ e.errors (item_error e.detail.library_id (some item.external_id) detail ∷ []),
    );
  }
  recorded-IsAccounted item (stored result repaired) w e =
      let begun : Execution Rest = record (item_read e) { world = w } in
      let (one, read, read_of_library, failed, failed_of_library, ins, upd) =
        classified_counts result.classification result.event_inserted begun in
      record {
        read = omega (arith, read);
        read_of_library = omega (arith, read_of_library);
        outcomes = omega (arith, one);
        inserted_alike = omega (arith, ins);
        updated_alike = omega (arith, upd);
        failures = omega (arith, failed, failed_of_library);
        reported = omega (
          arith,
          failed,
          length-++ e.errors (repair_notes e.detail.library_id item result repaired),
        );
      }

  module _ (services : Services Rest) where
    media_items-IsAccounted :
        (now : ℕ) (items : List ExternalMediaItem) (e : Execution Rest)
        → IsAccounted _ (length items) e (media_items services now items e)
    unfolding media_items media_item
    media_items-IsAccounted now [] e = none-IsAccounted e
    media_items-IsAccounted now (item ∷ items) e =
        let (answer, w) = persist_media_with_repair services now item e.world in
        both-IsAccounted (omega arith) (recorded-IsAccounted item answer w e)
          (media_items-IsAccounted now items (media_item services now item e))

    -- A page of media counts each of its items and issues once as read, in the run and in the library's
    -- row, and once in the run as inserted, updated, unchanged or failed. The library's row gains as many
    -- insertions, updates and failures as the run, and each failure has a row of its own among the errors,
    -- whatever the services answer.
    pub persist_media_page-IsAccounted :
        (now : ℕ) (items : List ExternalMediaItem) (issues : List PageIssue) (scanned : ℕ)
        (total : Option ℕ) (stage : Stage) (start : ℕ) (e : Execution Rest)
        → IsAccounted _
            (length items + length issues)
            e
            (persist_media_page services now items issues scanned total stage start e)
    unfolding persist_media_page
    persist_media_page-IsAccounted now items issues scanned total stage start e =
        let h =
          both-IsAccounted {total = length items + length issues} (omega arith)
            (media_issues-IsAccounted issues e)
            (media_items-IsAccounted now items (media_issues issues e)) in
        record {
          read = h.read;
          read_of_library = h.read_of_library;
          outcomes = h.outcomes;
          inserted_alike = h.inserted_alike;
          updated_alike = h.updated_alike;
          failures = h.failures;
          reported = h.reported;
        }
