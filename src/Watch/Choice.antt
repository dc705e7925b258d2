-- ===== src/Watch/Choice.antt =====
-- What `_prepare` (sync/watch_sync.py) may propagate.
use euvieouvi.Base.{
  ℕ, ◌<◌, ◌≡◌, ◌⊎◌, inl, inr, refl, true, Option, none, some, List, arith, is_some,
}
use euvieouvi.Watch.Rows.{ConnectorType, plex, jellyfin, other, Snapshot, id_of}
use euvieouvi.Watch.Decide.{
  watched_by_source, progress_by_source, Decision, skip, complete, resume, decide_from, decide_both,
}
use euvieouvi.Watch.Prepare.{decide}

-- What is known of a group: when it was watched in each source, and the positions.
pub record Facts : Type 0 where
  pub watched : ConnectorType → Option ℕ
  pub progress : ConnectorType → ℕ

unfoldable pub facts_of : Snapshot → List ℕ → Facts
facts_of snapshot group = record {
  watched = λ source. watched_by_source snapshot group (id_of snapshot.sources source);
  progress = λ source. progress_by_source snapshot group (id_of snapshot.sources source);
}

pub record ResumeIsJustified (facts : Facts) (target : ConnectorType) (position : ℕ) : Type 0 where
  pub positive : 0 < position
  pub from_source : facts.progress (other target) ≡ position
  pub unwatched : (facts.watched plex ≡ none) × (facts.watched jellyfin ≡ none)
  pub plex_owns :
      (target ≡ jellyfin) ⊎ ((facts.progress plex ≡ 0) ⊎ (facts.progress plex ≡ position))

-- A completion comes from a source that is watched and goes to one that is not; a position comes from a
-- source where playback began, and only where neither source is watched.
abbrev pub IsJustified : Facts → Decision → Type 0
IsJustified facts skip = Unit
IsJustified facts (complete target) =
    (is_some (facts.watched (other target)) ≡ true) × (facts.watched target ≡ none)
IsJustified facts (resume target position) = ResumeIsJustified facts target position

decide_both-IsJustified :
    (facts : Facts) (d : Decision)
    → decide_both
        (facts.watched plex)
        (facts.watched jellyfin)
        (facts.progress plex)
        (facts.progress jellyfin)
      ≡ d
    → IsJustified facts d
unfolding decide_both
decide_both-IsJustified facts skip e = tt
decide_both-IsJustified facts (complete plex) e = (ground arith, ground arith)
decide_both-IsJustified facts (complete jellyfin) e = (ground arith, ground arith)
decide_both-IsJustified facts (resume plex position) e = record {
  positive = ground arith;
  from_source = ground arith;
  unwatched = (ground arith, ground arith);
  plex_owns = inr (ground arith);
}
decide_both-IsJustified facts (resume jellyfin position) e = record {
  positive = ground arith;
  from_source = ground arith;
  unwatched = (ground arith, ground arith);
  plex_owns = inl refl;
}

decide_from-IsJustified :
    (facts : Facts) (source : ConnectorType) (d : Decision)
    → decide_from source
        (facts.watched source)
        (facts.watched (other source))
        (facts.progress source)
        (facts.progress (other source))
      ≡ d
    → IsJustified facts d
unfolding decide_from
decide_from-IsJustified facts source skip e = tt
decide_from-IsJustified facts plex (complete plex) e = absurd (ground arith)
decide_from-IsJustified facts plex (complete jellyfin) e = (ground arith, ground arith)
decide_from-IsJustified facts jellyfin (complete plex) e = (ground arith, ground arith)
decide_from-IsJustified facts jellyfin (complete jellyfin) e = absurd (ground arith)
decide_from-IsJustified facts plex (resume plex position) e = absurd (ground arith)
decide_from-IsJustified facts plex (resume jellyfin position) e = record {
  positive = ground arith;
  from_source = ground arith;
  unwatched = (ground arith, ground arith);
  plex_owns = inl refl;
}
decide_from-IsJustified facts jellyfin (resume plex position) e = record {
  positive = ground arith;
  from_source = ground arith;
  unwatched = (ground arith, ground arith);
  plex_owns = inr (inl (ground arith));
}
decide_from-IsJustified facts jellyfin (resume jellyfin position) e = absurd (ground arith)

-- Whatever is decided for a group is justified: a completion goes from a source that has one to the
-- source that has none; a position is that of the other source, is not zero, and goes where neither
-- source is watched; and no other position of Plex is overwritten by one of Jellyfin.
pub decide-IsJustified :
    (snapshot : Snapshot) (source_type : Option ConnectorType) (group : List ℕ)
    → IsJustified (facts_of snapshot group) (decide snapshot source_type group)
unfolding decide facts_of
decide-IsJustified snapshot none group = decide_both-IsJustified (facts_of snapshot group) _ refl
decide-IsJustified snapshot (some plex) group =
    decide_from-IsJustified (facts_of snapshot group) plex _ refl
decide-IsJustified snapshot (some jellyfin) group =
    decide_from-IsJustified (facts_of snapshot group) jellyfin _ refl

-- Equal positions are aligned for a run with a direction, which skips them in either direction, but
-- not for a run in both: that sends the position of Jellyfin to Plex, which has it already.
pub aligned-resumes :
    (snapshot : Snapshot) (source : ConnectorType) (group : List ℕ) (position : ℕ)
    → (facts_of snapshot group).watched plex ≡ none
    → (facts_of snapshot group).watched jellyfin ≡ none
    → (facts_of snapshot group).progress plex ≡ position
    → (facts_of snapshot group).progress jellyfin ≡ position
    → 0 < position
    → (decide snapshot (some source) group ≡ skip)
      × (decide snapshot none group ≡ resume plex position)
unfolding decide facts_of decide_both decide_from
aligned-resumes snapshot plex group position a b p q some_position = (ground arith, ground arith)
aligned-resumes snapshot jellyfin group position a b p q some_position =
    (ground arith, ground arith)
