-- ===== src/History/Refresh.antt =====
-- What `persist_event` (sync/persistence.py) does to rows that it has written before.
use euvieouvi.Base.{
  ℕ, Option, ◌≡◌, inl, inr, refl, ap, ◌∙◌, String, Bool, true, false, none, some, List, [], ◌∷◌,
  ◌++◌, arith, All, find_first, find_first-none, find_first-snoc, any, update_where, if◌then◌else◌,
  ◌==◌, eq_iff, Bool-cases,
}
use euvieouvi.History.Row.{
  ExternalEvent, WatchEvent, Tables, has_event_id, has_dedup_key, ends_with, next_event_id,
}
use euvieouvi.History.Event.{
  changed_media, answered, Setup, same_option_text, same_number, same_flag, same_values, touched,
  refreshed, refresh, new_event, insert_event, insert_unless_known, refresh_named, persist_found,
  persist_for,
}

module _ {A : Type 0} (p : A → Bool) (f : A → A) where
  pub update_where-twice :
      (xs : List A)
      → ((x : A) → p (f x) ≡ p x)
      → ((x : A) → f (f x) ≡ f x)
      → update_where p f (update_where p f xs) ≡ update_where p f xs
  unfolding update_where
  update_where-twice [] same twice = refl
  update_where-twice (x ∷ xs) same twice = elim (Bool-cases (p x)) [
    | inl e ↦ rw (e, same x, e, twice x, update_where-twice xs same twice) refl
    | inr e ↦ rw (e, e, update_where-twice xs same twice) refl
  ]

  update_where-snoc_only :
      (xs : List A) (y : A)
      → All (λ x. p x ≡ false) xs
      → f y ≡ y
      → update_where p f (xs ++ y ∷ []) ≡ xs ++ y ∷ []
  unfolding update_where
  update_where-snoc_only [] y none_before same = elim (Bool-cases (p y)) [
    | inl e ↦ rw e (ap (λ z. z ∷ []) same)
    | inr e ↦ rw e refl
  ]
  update_where-snoc_only (x ∷ xs) y none_before same =
      rw none_before.0 (ap (λ zs. x ∷ zs) (update_where-snoc_only xs y none_before.1 same))

any-last :
    {A : Type 0} (p : A → Bool) (xs : List A) (y : A) → p y ≡ true → any p (xs ++ y ∷ []) ≡ true
unfolding any
any-last p [] y e = ground arith
any-last p (x ∷ xs) y e = ground (arith, any-last p xs y e)

abbrev pub with_events : Tables → List WatchEvent → Tables
with_events t events = record t { events = events }

same_values_refl : (e : WatchEvent) → same_values e e ≡ true
unfolding same_values
same_values_refl e = ground (
  arith,
  eq_iff e.dedup_key e.dedup_key,
  eq_iff e.origin e.origin,
  flag e.completed,
  number e.progress_ms,
  number e.duration_ms,
  number e.view_number,
  text e.playback_user,
)
  where
    flag : (b : Bool) → same_flag b b ≡ true
    flag true = refl
    flag false = refl

    number : (n : Option ℕ) → same_number n n ≡ true
    number none = refl
    number (some n) = ground arith

    text : (t : Option String) → same_option_text t t ≡ true
    text none = refl
    text (some t) = ground (arith, eq_iff t t)

touched-same : (now : ℕ) (e : WatchEvent) → touched now e e ≡ e
unfolding touched
touched-same now e =
    ap (λ b. record e { updated_at = if b then e.updated_at else now }) (same_values_refl e)

module _ (setup : Setup) (origin : String) (event : ExternalEvent) where
  refreshed-touched :
      (event_id : String) (old e : WatchEvent)
      → refreshed setup origin event event_id
          (touched setup.utc_now old (refreshed setup origin event event_id e))
        ≡ touched setup.utc_now old (refreshed setup origin event event_id e)
  unfolding refreshed touched
  refreshed-touched event_id old e = elim (Bool-cases (ends_with event_id ":played-undated")) [
    | inl u ↦ rw u refl
    | inr u ↦ rw u refl
  ]

  pub refresh-twice :
      (event_id : String) (e : WatchEvent)
      → refresh setup origin event event_id (refresh setup origin event event_id e)
        ≡ refresh setup origin event event_id e
  unfolding refresh
  refresh-twice event_id e =
      ap (touched setup.utc_now (refresh setup origin event event_id e))
        (refreshed-touched event_id e e)
      ∙ touched-same setup.utc_now (refresh setup origin event event_id e)

  pub refresh-new_event :
      (event_id : String) (id item : ℕ)
      → refresh setup origin event event_id (new_event setup origin event id item)
        ≡ new_event setup origin event id item
  unfolding refresh
  refresh-new_event event_id id item =
      ap (touched setup.utc_now (new_event setup origin event id item)) same
      ∙ touched-same setup.utc_now (new_event setup origin event id item)
    where
      same :
          refreshed setup origin event event_id (new_event setup origin event id item)
          ≡ new_event setup origin event id item
      same =
          unfold refreshed new_event in
          elim (Bool-cases (ends_with event_id ":played-undated")) [
            | inl u ↦ rw u refl
            | inr u ↦ rw u refl
          ]

  pub refresh-has_event_id :
      (event_id : String) (e : WatchEvent)
      → has_event_id setup.source_id event_id (refresh setup origin event event_id e)
        ≡ has_event_id setup.source_id event_id e
  unfolding refresh refreshed touched
  refresh-has_event_id event_id e = refl

  pub known-answered :
      (item : ℕ) (t : Tables)
      → any (has_dedup_key setup.source_id (setup.event_dedup_key event)) t.events ≡ true
      → insert_unless_known setup origin event item t ≡ answered false t
  unfolding insert_unless_known
  known-answered item t e = rw e refl

  pub inserted-known :
      (item : ℕ) (t : Tables)
      → any
          (has_dedup_key setup.source_id (setup.event_dedup_key event))
          (insert_event setup origin event item t).events
        ≡ true
  unfolding insert_event new_event
  inserted-known item t =
      any-last _ t.events (new_event setup origin event (next_event_id t.events) item)
        (ground (arith, eq_iff (setup.event_dedup_key event) (setup.event_dedup_key event)))

  new_event-has_event_id :
      (id item : ℕ) (event_id : String)
      → event.source_event_id ≡ some event_id
      → has_event_id setup.source_id event_id (new_event setup origin event id item) ≡ true
  unfolding new_event
  new_event-has_event_id id item event_id named =
      rw named (ground (arith, eq_iff event_id event_id))

  new_event-item :
      (id item : ℕ) → ((new_event setup origin event id item).media_item_id == item) ≡ true
  unfolding new_event
  new_event-item id item = ground arith

  pub refresh_named-done :
      (item : ℕ) (event_id : String) (existing : WatchEvent) (t : Tables)
      → (existing.media_item_id == item) ≡ true
      → update_where
          (has_event_id setup.source_id event_id)
          (refresh setup origin event event_id)
          t.events
        ≡ t.events
      → refresh_named setup origin event item event_id existing t ≡ answered false t
  unfolding refresh_named
  refresh_named-done item event_id existing t own same =
      ap
        (λ b.
          if b
          then answered false (
              with_events t (
                update_where (has_event_id setup.source_id event_id)
                  (refresh setup origin event event_id) t.events))
          else changed_media t)
        own
      ∙ ap (λ events. answered false (with_events t events)) same

  -- The row that was inserted under a name is found under it, and is up to date.
  pub inserted-refreshed :
      (item : ℕ) (event_id : String) (t : Tables)
      → event.source_event_id ≡ some event_id
      → find_first (has_event_id setup.source_id event_id) t.events ≡ none
      → persist_for setup origin event item (some event_id) (insert_event setup origin event item t)
        ≡ answered false (insert_event setup origin event item t)
  unfolding persist_for persist_found insert_event
  inserted-refreshed item event_id t named absent =
      let new = new_event setup origin event (next_event_id t.events) item in
      let is_named = new_event-has_event_id (next_event_id t.events) item event_id named in
      let found : find_first (has_event_id setup.source_id event_id) (t.events ++ new ∷ [])
          ≡ some new =
        ground (
          arith,
          find_first-snoc (has_event_id setup.source_id event_id) t.events new,
          is_named,
          absent,
        ) in
      let same =
        update_where-snoc_only (has_event_id setup.source_id event_id)
          (refresh setup origin event event_id) t.events new (find_first-none _ t.events absent)
          (refresh-new_event event_id (next_event_id t.events) item) in
      ap
        (λ o.
          persist_found setup origin event item event_id o (insert_event setup origin event item t))
        found
      ∙ refresh_named-done item event_id new (insert_event setup origin event item t)
          (new_event-item (next_event_id t.events) item) same
