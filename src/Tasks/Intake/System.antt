-- ===== src/Tasks/Intake/System.antt =====
-- The intake and its workers as one system that moves in steps. The lanes stay open; they are first
-- in, first out and bounded.
use picasu.Prelude.{
  ℕ, ◌≤◌, ◌<◌, ◌≡◌, ◌≢◌, Option, none, List, [], ◌∷◌, ◌++◌, ◌+◌, ◌==◌, if◌then◌else◌, All,
}
use picasu.Model.Text.{Text}
use picasu.Tasks.Priority.{Priority, scan, watcher, expire, interactive, lane_index}
use picasu.Tasks.Intake.{
  IntakeKind, scan_job, watcher_index, watcher_remove, expire_check, interactive_album, IntakeItem,
  Generations, Jobs, no_progress, note_item_submitted, remove_job, next_generation, judge, skips,
  drops, runs, complete_item, release_item,
}

abbrev pub intake_capacity : ℕ
intake_capacity = 1024

pub record Intake : Type 0 where
  pub generations : Generations
  pub jobs : Jobs
  -- items that wait to be sent, and those in the lanes, the oldest first
  pub sending : List IntakeItem
  pub queued : List IntakeItem
  -- items whose pipelines run
  pub working : List IntakeItem
  -- what was done: the items that went through their pipelines, and those skipped as superseded
  pub processed : List IntakeItem
  pub skipped : List IntakeItem

-- How many items a lane holds.
abbrev pub lane_length : Priority → List IntakeItem → ℕ
lane_length priority [] = 0
lane_length priority (m ∷ ms) =
    (if lane_index m.priority == lane_index priority then 1 else 0) + lane_length priority ms

-- The other item is in another lane, so that it does not stand before this one.
abbrev pub OtherLane : IntakeItem → IntakeItem → Type 0
OtherLane m other = lane_index other.priority ≢ lane_index m.priority

-- `submit_scan`, `submit_watcher_index`, `submit_watcher_remove`, and the submits without a path, up to
-- the `send` of `enqueue`.
abbrev pub new_item : Text → Priority → IntakeKind → ℕ → Option ℕ → Option ℕ → IntakeItem
new_item path priority kind generation mtime len = record {
  path = path;
  priority = priority;
  kind = kind;
  generation = generation;
  mtime = mtime;
  len = len;
}

pub data Step (s t : Intake) : Type 0 where
  submit_scan :
      (path : Text) (job_id : ℕ) (mtime len : Option ℕ)
      → t ≡ record s {
        generations = (next_generation path s.generations).1;
        jobs = note_item_submitted job_id s.jobs;
        sending =
            s.sending
            ++ new_item path scan (scan_job job_id) (next_generation path s.generations).0 mtime len
              ∷ [];
      }
      → Step s t
  submit_watcher_index :
      (path : Text) (mtime len : Option ℕ)
      → t ≡ record s {
        generations = (next_generation path s.generations).1;
        sending =
            s.sending
            ++ new_item path watcher watcher_index (next_generation path s.generations).0 mtime len
              ∷ [];
      }
      → Step s t
  submit_watcher_remove :
      (path : Text)
      → t ≡ record s {
        generations = (next_generation path s.generations).1;
        sending =
            s.sending
            ++ new_item path watcher watcher_remove (next_generation path s.generations).0 none none
              ∷ [];
      }
      → Step s t
  submit_expire_check :
      t ≡ record s { sending = s.sending ++ new_item [] expire expire_check 0 none none ∷ [] }
      → Step s t
  submit_interactive_album :
      (album_id : Text)
      → t ≡ record s {
        sending =
            s.sending ++ new_item [] interactive (interactive_album album_id) 0 none none ∷ [];
      }
      → Step s t
  enqueue :
      (before after : List IntakeItem) (m : IntakeItem)
      → s.sending ≡ before ++ m ∷ after
      → lane_length m.priority s.queued < intake_capacity
      → t ≡ record s { sending = before ++ after; queued = s.queued ++ m ∷ [] }
      → Step s t
  -- a worker takes the oldest item of a lane, and skips it, drops it or begins it
  skip :
      (before after : List IntakeItem) (m : IntakeItem) (meta : Option (Option ℕ × ℕ))
      → s.queued ≡ before ++ m ∷ after
      → All (OtherLane m) before
      → judge m meta s.generations ≡ skips
      → t ≡ record s {
        jobs = complete_item m s.jobs;
        queued = before ++ after;
        skipped = s.skipped ++ m ∷ [];
      }
      → Step s t
  drop :
      (before after : List IntakeItem) (m : IntakeItem) (meta : Option (Option ℕ × ℕ))
      → s.queued ≡ before ++ m ∷ after
      → All (OtherLane m) before
      → judge m meta s.generations ≡ drops
      → t ≡ record s {
        generations = release_item m s.generations;
        jobs = complete_item m s.jobs;
        queued = before ++ after;
      }
      → Step s t
  begin :
      (before after : List IntakeItem) (m : IntakeItem) (meta : Option (Option ℕ × ℕ))
      → s.queued ≡ before ++ m ∷ after
      → All (OtherLane m) before
      → judge m meta s.generations ≡ runs
      → t ≡ record s { queued = before ++ after; working = s.working ++ m ∷ [] }
      → Step s t
  finish :
      (before after : List IntakeItem) (m : IntakeItem)
      → s.working ≡ before ++ m ∷ after
      → t ≡ record s {
        generations = release_item m s.generations;
        jobs = complete_item m s.jobs;
        working = before ++ after;
        processed = s.processed ++ m ∷ [];
      }
      → Step s t
  -- the end of `drain_intake`
  drain :
      (job_id : ℕ)
      → (s.jobs job_id).submitted ≤ (s.jobs job_id).completed
      → t ≡ record s { jobs = remove_job job_id s.jobs }
      → Step s t

pub data Run (s : Intake) : Intake → Type 0 where
  here : Run s s
  next : {t u : Intake} → Run s t → Step t u → Run s u

abbrev pub empty : Intake
empty = record {
  generations = [];
  jobs = λ job_id. no_progress;
  sending = [];
  queued = [];
  working = [];
  processed = [];
  skipped = [];
}
