-- ===== src/Sync/Sweep.antt =====
-- The sweep over the references that a full scan has not seen, and when it takes place.
use euvieouvi.Base.{
  ℕ, suc, ◌-◌, ◌≡◌, refl, sym, ap, subst, ◌∙◌, Option, none, true, false, String, ◌&&◌, not, some,
  List, [], ◌∷◌, map, arith, update_where, if◌then◌else◌, ◌==◌, ◌||◌,
}
use euvieouvi.Sync.Media.{is_in}
use euvieouvi.Sync.Rows.{SourceMediaRef, SyncCheckpoint, media}
use euvieouvi.Sync.Checkpoint.{resume_position, complete_checkpoint}
use euvieouvi.Sync.Page.{Execution}
use euvieouvi.Sync.Scan.{
  Setup, Library, Collected, collected, broken_off, media_loop, history_loop, update_progress,
  mark_row, is_missing, mark_missing_unavailable, watermark_overlap,
}
use euvieouvi.Sync.Library.{
  plan, Plan, close_library, full_scan_is_due, is_media, start_library, closed, sweep, history_part,
  after_media, sync_library,
}

available_row :
    (now library_id : ℕ) (seen : List String) (r : SourceMediaRef)
    → (if is_missing library_id seen r then mark_row now r else r).available
      ≡ (r.available && (not (r.library_id == library_id) || is_in seen r.external_id))
unfolding mark_row
available_row now library_id seen r = ground arith

marked_row :
    (now later library_id : ℕ) (seen : List String) (r : SourceMediaRef)
    → let r' : SourceMediaRef = if is_missing library_id seen r then mark_row now r else r in
      (if is_missing library_id seen r' then mark_row later r' else r') ≡ r'
unfolding mark_row
marked_row now later library_id seen r = ground arith

-- A sweep leaves available exactly the references that were available before and are of another
-- library or seen by the scan; and a second sweep at any time changes nothing, so the time since when
-- a reference is unavailable stays the time of the first.
pub mark_missing_unavailable-available :
    (now later library_id : ℕ) (seen : List String) (refs : List SourceMediaRef)
    → let swept : List SourceMediaRef = mark_missing_unavailable now library_id seen refs in
      (map (λ r. r.available) swept
        ≡ map
            (λ r. r.available && (not (r.library_id == library_id) || is_in seen r.external_id))
            refs)
      × (mark_missing_unavailable later library_id seen swept ≡ swept)
unfolding mark_missing_unavailable update_where
mark_missing_unavailable-available now later library_id seen [] = (refl, refl)
mark_missing_unavailable-available now later library_id seen (r ∷ refs) =
    let (available, again) = mark_missing_unavailable-available now later library_id seen refs in
    (
      cc (available, available_row now library_id seen r),
      cc (again, marked_row now later library_id seen r),
    )

abbrev pub last_full_scan : Option SyncCheckpoint → Option ℕ
last_full_scan none = none
last_full_scan (some c) = c.last_full_scan_at

module _ {Rest : Type 0} (setup : Setup Rest) (library : Library) where
  closed_cases :
      (p : Plan) (k : ℕ) (seen : List String) (e : Execution Rest) (o : Option (Collected Rest))
      → (elim o as (λ _. Option (Collected Rest)) [
        | none ↦ none
        | some c ↦ some (closed setup library p c)
      ])
        ≡ some (collected k seen e)
      → (e' : Execution Rest) × (o ≡ some (collected k seen e'))
        × (e ≡ close_library setup library p k e')
  closed_cases p k seen e none answer = absurd (cc answer)
  closed_cases p k seen e (some (broken_off reason e')) answer = absurd (cc answer)
  closed_cases p k seen e (some (collected j seen' e')) answer =
      let rounds : j ≡ k = cc answer in
      let ids : seen' ≡ seen = cc answer in (e', cc (rounds, ids), cc (rounds, answer))

  unswept_media :
      (p : Plan) (fuel k : ℕ) (seen : List String) (e : Execution Rest)
      (o : Option (Collected Rest))
      → p.full_catalog_scan ≡ false
      → after_media setup library p fuel o ≡ some (collected k seen e)
      → (j : ℕ) × (now_seen : List String) × (e' : Execution Rest) × (o
          ≡ some (collected j now_seen e'))
        × (history_part setup library p fuel j 0 e' ≡ some (collected k seen e))
  unfolding after_media
  unswept_media p fuel k seen e none partial answer = absurd (cc answer)
  unswept_media p fuel k seen e (some (broken_off reason e')) partial answer = absurd (cc answer)
  unswept_media p fuel k seen e (some (collected j now_seen e')) partial answer = (
    j,
    now_seen,
    e',
    refl,
    sym (
          ap
            (λ b.
              history_part setup library p fuel j 0
                (if b then sweep setup library (setup.clock j) now_seen e' else e'))
            partial)
        ∙ answer,
  )

  -- The library's scan `e` to `e'` in two loops with nothing between them, and what it records.
  pub record IsUnswept (fuel k k' n : ℕ) (seen : List String) (e e' : Execution Rest) : Type 0 where
    pub rounds : ℕ
    pub now_seen : List String
    pub after_media_loop : Execution Rest
    pub after_history_loop : Execution Rest
    pub media_collected :
        media_loop setup library none fuel k
          (suc n)
          []
          (start_library setup library (setup.clock k) e)
        ≡ some (collected rounds now_seen after_media_loop)
    pub history_collected :
        history_loop setup library
          (plan setup.services.json (setup.clock k) e.checkpoint).since
          fuel
          rounds
          0
          after_media_loop
        ≡ some (collected k' seen after_history_loop)
    pub catalog :
        e'.world.catalog
        ≡ setup.services.rebuild_container_watch_states
            (setup.clock k')
            after_history_loop.world.catalog
    pub recorded_as_full : last_full_scan e'.checkpoint ≡ some (setup.clock k - watermark_overlap)

  -- A full scan that goes on from a stored position and comes to its end makes no sweep: the history follows
  -- on the state that the loop over the media left, and the catalogue at the end is that of the history
  -- loop with the states of its containers rebuilt. But it is recorded as a full scan all the same, at the
  -- time when it started less the overlap.
  pub resumed_full_scan-IsUnswept :
      (fuel k k' n : ℕ) (seen : List String) (e e' : Execution Rest)
      → resume_position setup.services.json e.checkpoint ≡ (media, suc n)
      → full_scan_is_due (setup.clock k) e.checkpoint ≡ true
      → sync_library setup library fuel k e ≡ some (collected k' seen e')
      → IsUnswept fuel k k' n seen e e'
  unfolding sync_library history_part close_library complete_checkpoint update_progress
  resumed_full_scan-IsUnswept fuel k k' n seen e e' resumed due answer =
      let p = plan setup.services.json (setup.clock k) e.checkpoint in
      let (partial, of_media, start, full, since_none, started) = facts in
      let (j, now_seen, e₁, media_end, rest) =
        unswept_media p fuel k' seen e' _ partial (rw of_media at answer) in
      let (e₂, history_end, closing) = closed_cases p k' seen e' _ rest in
      record {
        rounds = j;
        now_seen = now_seen;
        after_media_loop = e₁;
        after_history_loop = e₂;
        media_collected =
            subst
              (λ since.
                media_loop setup library since fuel k (suc n) []
                  (start_library setup library (setup.clock k) e)
                ≡ some (collected j now_seen e₁))
              since_none
              (subst
                (λ m.
                  media_loop setup library p.updated_since fuel k m []
                    (start_library setup library (setup.clock k) e)
                  ≡ some (collected j now_seen e₁))
                start media_end);
        history_collected = history_end;
        catalog = ap (λ x. x.world.catalog) closing;
        recorded_as_full =
            ap (λ x. last_full_scan x.checkpoint) closing
            ∙ full_recorded p (setup.clock k') e₂.run.id e₂.checkpoint full
            ∙ ap (λ at. some (at - watermark_overlap)) started;
      }
    where
      facts :
          let p : Plan = plan setup.services.json (setup.clock k) e.checkpoint in
          (p.full_catalog_scan ≡ false)
          × (is_media p.stage ≡ true)
          × (p.start ≡ suc n)
          × (p.periodic_full_scan ≡ true)
          × (p.updated_since ≡ none)
          × (p.scan_started_at ≡ setup.clock k)
      facts =
          unfold plan in
          (rw resumed (ground arith), rw resumed refl, rw resumed refl, due, rw due refl, refl)

      full_recorded :
          (p : Plan) (now run_id : ℕ) (c : Option SyncCheckpoint)
          → p.periodic_full_scan ≡ true
          → last_full_scan (
              some (
                complete_checkpoint now run_id
                  (p.scan_started_at - watermark_overlap)
                  p.periodic_full_scan
                  c))
            ≡ some (p.scan_started_at - watermark_overlap)
      full_recorded p now run_id c full = rw full refl
