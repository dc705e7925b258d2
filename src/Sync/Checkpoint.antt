-- ===== src/Sync/Checkpoint.antt =====
-- `_set_checkpoint`, `_complete_checkpoint` and `_resume_position` of sync/orchestrator.py.
use euvieouvi.Base.{ℕ, String, Bool, ◌||◌, ◌≡◌, refl, Option, none, some, str_eq, if◌then◌else◌}
use euvieouvi.Sync.Rows.{SyncCheckpoint, Stage, media, history, complete, Json, ℤ, pos, negsuc}

stage_name : Stage → String
stage_name media = "media"
stage_name history = "history"
stage_name complete = "complete"

cursor_of : Json → Stage → ℕ → Option String
unfolding stage_name
cursor_of json complete start = none
cursor_of json stage start = some (json.dumps (stage_name stage) start)

checkpoint_or_new : ℕ → Option SyncCheckpoint → SyncCheckpoint
checkpoint_or_new now (some c) = record c { strategy = "incremental_v2" }
checkpoint_or_new now none = record {
  strategy = "incremental_v2";
  cursor = none;
  watermark_at = none;
  last_full_scan_at = none;
  last_external_id = none;
  last_successful_run_id = none;
  updated_at = now;
}

unfoldable pub set_checkpoint : Json → ℕ → ℕ → Stage → ℕ → Option SyncCheckpoint → SyncCheckpoint
unfolding cursor_of checkpoint_or_new
set_checkpoint json now run_id stage start c =
    let kept = checkpoint_or_new now c in
    record kept {
      cursor = cursor_of json stage start;
      last_successful_run_id = elim stage [
        | complete ↦ some run_id
        | _ ↦ kept.last_successful_run_id
      ];
      updated_at = now;
    }

known_strategy : String → Bool
known_strategy s = str_eq s "full_scan_v1" || str_eq s "incremental_v2"

cursor_position : Option (String × ℤ) → Stage × ℕ
cursor_position none = (media, 0)
cursor_position (some (stage, negsuc n)) = (media, 0)
cursor_position (some (stage, pos start)) =
    if str_eq stage "media"
    then (media, start)
    else if str_eq stage "history"
    then (history, start)
    else (media, 0)

unfoldable pub resume_position : Json → Option SyncCheckpoint → Stage × ℕ
unfolding known_strategy cursor_position
resume_position json none = (media, 0)
resume_position json (some c) = elim c.cursor [
  | none ↦ (media, 0)
  | some cursor ↦
      if known_strategy c.strategy then cursor_position (json.loads cursor) else (media, 0)
]

unfoldable pub complete_checkpoint : ℕ → ℕ → ℕ → Bool → Option SyncCheckpoint → SyncCheckpoint
unfolding checkpoint_or_new
complete_checkpoint now run_id watermark_at full_scan c =
    let kept = checkpoint_or_new now c in
    record kept {
      cursor = none;
      watermark_at = some watermark_at;
      last_full_scan_at = if full_scan then some watermark_at else kept.last_full_scan_at;
      last_successful_run_id = some run_id;
      updated_at = now;
    }

-- A position of the media that was written is read back.
abbrev pub IsReadBack : Json → Type 0
IsReadBack json = (n : ℕ) → json.loads (json.dumps "media" n) ≡ some ("media", pos n)

pub resume_position-set_checkpoint :
    (json : Json) (now run_id start : ℕ) (c : Option SyncCheckpoint)
    → IsReadBack json
    → resume_position json (some (set_checkpoint json now run_id media start c)) ≡ (media, start)
unfolding resume_position set_checkpoint
resume_position-set_checkpoint json now run_id start none read_back = rw (read_back start) refl
resume_position-set_checkpoint json now run_id start (some c) read_back = rw (read_back start) refl
