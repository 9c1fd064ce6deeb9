-- ===== src/Tasks/AlbumIndex/System.antt =====
-- backend/src/tasks/actor/album_index.rs: the calls and the job's task as a step relation. Each step is one
-- atomic action of the source, between two locks or awaits.
use picasu.Prelude.{ℕ, ◌+◌, ◌≡◌, Bool, true, false, Option, none, some, ◌==◌, if◌then◌else◌}
use picasu.Model.Text.{Text}
use picasu.Tasks.AlbumIndex.{
  IndexStatusSlot, is_running, default_status, started, increment_scanned, increment_matched,
  note_file_processed, note_file_failed, finish_status, finish_active, final_state, note_cancel,
}

-- How far a call of `index_album_with_root` with its job has come: it has the status slot (`claimed`), it
-- has set the active job (`listed`), it returned because the tables could not be cleared (`dropped`), its
-- task runs (`working`), has written the final status (`leaving`), and has ended (`gone`).
pub data Phase : Type 0 where
  unborn claimed listed dropped working leaving gone : Phase

-- `NEXT_JOB_ID`, `INDEX_STATUS`, `ACTIVE_INDEX`, the cancel flags of the jobs, and their phases.
pub record Index : Type 0 where
  pub next_job_id : ℕ
  pub slot : IndexStatusSlot
  pub active : Option ℕ
  pub cancel : ℕ → Bool
  pub phase : ℕ → Phase

unfoldable pub initial : Index
initial = record {
  next_job_id = 1;
  slot = record { job_id = 0; status = default_status };
  active = none;
  cancel = λ j. false;
  phase = λ j. unborn;
}

abbrev pub set {ℓ} : {A : Type ℓ} → ℕ → A → (ℕ → A) → ℕ → A
set j a f k = if k == j then a else f k

pub data Step : Index → Index → Type 0 where
  -- A call takes its id and finds no job running.
  claim :
      (s : Index) (now : ℕ) (src : Text)
      → is_running s.slot.status.state ≡ false
      → Step s (record s {
        next_job_id = s.next_job_id + 1;
        slot = record { job_id = s.next_job_id; status = started now src };
        phase = set s.next_job_id claimed s.phase;
      })
  -- A call takes its id and is refused.
  refuse :
      (s : Index)
      → is_running s.slot.status.state ≡ true
      → Step s (record s { next_job_id = s.next_job_id + 1 })
  list :
      (s : Index) (j : ℕ)
      → s.phase j ≡ claimed
      → Step s (record s { active = some j; phase = set j listed s.phase })
  -- `clear_asset_tables_and_caches()?` fails.
  drop :
      (s : Index) (j : ℕ) → s.phase j ≡ listed → Step s (record s { phase = set j dropped s.phase })
  spawn :
      (s : Index) (j : ℕ) → s.phase j ≡ listed → Step s (record s { phase = set j working s.phase })
  -- The task and the workers count files, for any job.
  scan : (s : Index) (j : ℕ) → Step s (record s { slot = increment_scanned j s.slot })
  match : (s : Index) (j : ℕ) → Step s (record s { slot = increment_matched j s.slot })
  process : (s : Index) (j : ℕ) → Step s (record s { slot = note_file_processed j s.slot })
  fail :
      (s : Index) (j : ℕ) (path : Option Text)
      → Step s (record s { slot = note_file_failed j path s.slot })
  -- `cancel_album_index`
  flag :
      (s : Index) (j : ℕ) → s.active ≡ some j → Step s (record s { cancel = set j true s.cancel })
  note : (s : Index) (j : ℕ) → s.cancel j ≡ true → Step s (record s { slot = note_cancel j s.slot })
  -- `finish_job`
  report :
      (s : Index) (j now : ℕ)
      → s.phase j ≡ working
      → Step s (record s {
        slot = finish_status j (final_state (s.cancel j) j s.slot) now s.slot;
        phase = set j leaving s.phase;
      })
  leave :
      (s : Index) (j : ℕ)
      → s.phase j ≡ leaving
      → Step s (record s { active = finish_active j s.active; phase = set j gone s.phase })

pub data Run (s : Index) : Index → Type 0 where
  here : Run s s
  next : {t u : Index} → Run s t → Step t u → Run s u
