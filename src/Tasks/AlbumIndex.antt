-- ===== src/Tasks/AlbumIndex.antt =====
-- backend/src/tasks/actor/album_index.rs: the status of the index job, and which directories a job scans.
-- Counters are numbers that do not reach 2^64.
pub mod Roots
pub mod System
pub mod Jobs
pub mod Blocked
mod Tests
use picasu.Prelude.{
  ℕ, ◌+◌, Bool, true, false, not, ◌&&◌, Option, none, some, List, [], ◌∷◌, ◌++◌, ltb, leb, ◌==◌,
  if◌then◌else◌, length,
}
use picasu.Model.Text.{Text}

pub data AlbumIndexState : Type 0 where
  idle running completed canceled failed : AlbumIndexState

pub record AlbumIndexStatus : Type 0 where
  pub state : AlbumIndexState
  pub root : Option Text
  pub scanned : ℕ
  pub matched : ℕ
  pub processed : ℕ
  pub failures : ℕ
  pub failed_paths : List Text
  pub started_at : Option ℕ
  pub finished_at : Option ℕ
  pub cancel_requested : Bool

unfoldable pub default_status : AlbumIndexStatus
default_status = record {
  state = idle;
  root = none;
  scanned = 0;
  matched = 0;
  processed = 0;
  failures = 0;
  failed_paths = [];
  started_at = none;
  finished_at = none;
  cancel_requested = false;
}

pub record IndexStatusSlot : Type 0 where
  pub job_id : ℕ
  pub status : AlbumIndexStatus

abbrev pub is_running : AlbumIndexState → Bool
is_running running = true
is_running _ = false

-- The status that a new job writes; `now` is the clock.
unfoldable pub started : ℕ → Text → AlbumIndexStatus
started now src = record default_status { state = running; root = some src; started_at = some now }

unfoldable pub update_status :
    ℕ → (AlbumIndexStatus → AlbumIndexStatus) → IndexStatusSlot → IndexStatusSlot
update_status job_id update slot =
    if slot.job_id == job_id then record slot { status = update slot.status } else slot

unfoldable pub increment_scanned : ℕ → IndexStatusSlot → IndexStatusSlot
increment_scanned job_id slot =
    update_status job_id (λ s. record s { scanned = s.scanned + 1 }) slot

unfoldable pub increment_matched : ℕ → IndexStatusSlot → IndexStatusSlot
increment_matched job_id slot =
    update_status job_id (λ s. record s { matched = s.matched + 1 }) slot

unfoldable pub note_file_processed : ℕ → IndexStatusSlot → IndexStatusSlot
note_file_processed job_id slot =
    update_status job_id (λ s. record s { processed = s.processed + 1 }) slot

abbrev add_path : Option Text → List Text → List Text
add_path none paths = paths
add_path (some p) paths = if ltb (length paths) 1000 then paths ++ p ∷ [] else paths

unfoldable pub note_file_failed : ℕ → Option Text → IndexStatusSlot → IndexStatusSlot
note_file_failed job_id path slot =
    update_status job_id
      (λ s. record s { failures = s.failures + 1; failed_paths = add_path path s.failed_paths })
      slot

unfoldable pub did_every_matched_file_fail : ℕ → IndexStatusSlot → Bool
did_every_matched_file_fail job_id slot =
    slot.job_id == job_id
    && ltb 0 slot.status.matched
    && slot.status.processed == 0
    && leb slot.status.matched slot.status.failures

-- The first half of `finish_job`
unfoldable pub finish_status : ℕ → AlbumIndexState → ℕ → IndexStatusSlot → IndexStatusSlot
finish_status job_id state now slot =
    update_status job_id (λ s. record s { state = state; finished_at = some now }) slot

-- The second half of `finish_job`, on the job in `ACTIVE_INDEX`
unfoldable pub finish_active : ℕ → Option ℕ → Option ℕ
finish_active job_id none = none
finish_active job_id (some j) = if j == job_id then none else some j

-- The state in which a job ends
unfoldable pub final_state : Bool → ℕ → IndexStatusSlot → AlbumIndexState
final_state cancel job_id slot =
    if cancel
    then canceled
    else if did_every_matched_file_fail job_id slot
    then failed
    else completed

-- The last step of `cancel_album_index`
unfoldable pub note_cancel : ℕ → IndexStatusSlot → IndexStatusSlot
note_cancel job_id slot =
    if slot.job_id == job_id && is_running slot.status.state
    then record slot { status = record slot.status { cancel_requested = true } }
    else slot
