-- ===== src/Tasks/Intake.antt =====
-- backend/src/tasks/queue/intake.rs and worker.rs: items on their way to the workers. A path is its
-- text, a file time is a number.
pub mod System
pub mod Drain
pub mod Reuse
mod Tests
use picasu.Prelude.{
  ℕ, ◌+◌, Bool, true, false, not, ◌&&◌, Option, none, some, List, [], ◌∷◌, leb, ◌==◌, if◌then◌else◌,
  map_or,
}
use picasu.Model.Text.{Text}
use picasu.Model.Text.Table.{Table, find, insert, delete}
use picasu.Tasks.Priority.{Priority}

pub data IntakeKind : Type 0 where
  scan_job : ℕ → IntakeKind
  watcher_index watcher_remove expire_check : IntakeKind
  interactive_album : Text → IntakeKind

pub record IntakeItem : Type 0 where
  pub path : Text
  pub priority : Priority
  pub kind : IntakeKind
  pub generation : ℕ
  pub mtime : Option ℕ
  pub len : Option ℕ

pub record JobProgress : Type 0 where
  pub submitted : ℕ
  pub completed : ℕ

-- `GENERATIONS`
abbrev pub Generations : Type 0
Generations = Table ℕ

-- `JOB_PROGRESS`: a job that is not in the map has the progress that is made for it on demand.
abbrev pub Jobs : Type 0
Jobs = ℕ → JobProgress

abbrev pub no_progress : JobProgress
no_progress = record { submitted = 0; completed = 0 }

unfoldable pub set_job : ℕ → JobProgress → Jobs → Jobs
set_job job_id p jobs j = if j == job_id then p else jobs j

unfoldable pub note_item_submitted : ℕ → Jobs → Jobs
note_item_submitted job_id jobs =
    set_job job_id (record (jobs job_id) { submitted = (jobs job_id).submitted + 1 }) jobs

unfoldable pub note_item_complete : ℕ → Jobs → Jobs
note_item_complete job_id jobs =
    set_job job_id (record (jobs job_id) { completed = (jobs job_id).completed + 1 }) jobs

unfoldable pub remove_job : ℕ → Jobs → Jobs
remove_job job_id jobs = set_job job_id no_progress jobs

unfoldable pub current_generation : Text → Generations → Option ℕ
current_generation path generations = find path generations

-- The generation handed out, and the map after it.
unfoldable pub next_generation : Text → Generations → ℕ × Generations
next_generation path generations =
    let slot = map_or 0 (λ g. g) (find path generations) + 1 in (slot, insert path slot generations)

abbrev same_generation : Option ℕ → ℕ → Bool
same_generation none g = false
same_generation (some current) g = current == g

unfoldable pub release_generation : IntakeItem → Generations → Generations
release_generation item generations =
    if same_generation (find item.path generations) item.generation
    then delete item.path generations
    else generations

unfoldable pub is_superseded : IntakeItem → Generations → Bool
is_superseded item generations =
    not (same_generation (current_generation item.path generations) item.generation)

abbrev number_eq : Option ℕ → Option ℕ → Bool
number_eq none none = true
number_eq none (some y) = false
number_eq (some x) none = false
number_eq (some x) (some y) = x == y

-- `meta` is what `std::fs::metadata` finds: the time of the last change, if known, and the length.
unfoldable pub is_stale : IntakeItem → Option (Option ℕ × ℕ) → Bool
is_stale item none = false
is_stale item (some (modified, length)) =
    not (number_eq modified item.mtime && number_eq (some length) item.len)

-- What a worker does with an item first: it skips it as superseded, drops it as stale, or runs its
-- pipeline.
pub data Verdict : Type 0 where
  skips drops runs : Verdict

-- The beginnings of `process_scan_item`, `process_watcher_index`, `process_watcher_remove` and the two
-- kinds without a path.
unfoldable pub judge : IntakeItem → Option (Option ℕ × ℕ) → Generations → Verdict
judge item meta generations = elim item.kind [
  | scan_job job_id ↦
      if is_superseded item generations then skips else if is_stale item meta then drops else runs
  | watcher_index ↦
      if is_superseded item generations then skips else if is_stale item meta then drops else runs
  | watcher_remove ↦ if is_superseded item generations then skips else runs
  | expire_check ↦ runs
  | interactive_album album_id ↦ runs
]

-- A scan item's share of its job's barrier.
unfoldable pub complete_item : IntakeItem → Jobs → Jobs
complete_item item jobs = elim item.kind [
  | scan_job job_id ↦ note_item_complete job_id jobs
  | watcher_index ↦ jobs
  | watcher_remove ↦ jobs
  | expire_check ↦ jobs
  | interactive_album album_id ↦ jobs
]

-- `release_generation` is called for the kinds with a path.
unfoldable pub release_item : IntakeItem → Generations → Generations
release_item item generations = elim item.kind [
  | scan_job job_id ↦ release_generation item generations
  | watcher_index ↦ release_generation item generations
  | watcher_remove ↦ release_generation item generations
  | expire_check ↦ generations
  | interactive_album album_id ↦ generations
]
