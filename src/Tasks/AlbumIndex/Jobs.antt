-- ===== src/Tasks/AlbumIndex/Jobs.antt =====
-- backend/src/tasks/actor/album_index.rs: at most one index job is under way.
use picasu.Prelude.{ℕ, ◌+◌, ◌≤◌, ◌<◌, ◌≡◌, refl, sym, ◌∙◌, Bool, true, false, Option, some, arith}
use picasu.Model.Text.{Text}
use picasu.Tasks.AlbumIndex.{
  IndexStatusSlot, is_running, default_status, started, update_status, increment_scanned,
  increment_matched, note_file_processed, note_file_failed, finish_status, finish_active,
  final_state, note_cancel,
}
use picasu.Tasks.AlbumIndex.System.{
  Phase, unborn, claimed, listed, dropped, working, leaving, gone, Index, initial, set, Step, claim,
  refuse, list, drop, spawn, scan, match, process, fail, flag, note, report, leave, Run, here, next,
}

-- The job has the status slot, and the job is the active one.
abbrev pub is_live : Phase → Bool
is_live claimed = true
is_live listed = true
is_live dropped = true
is_live working = true
is_live _ = false

abbrev pub is_active : Phase → Bool
is_active listed = true
is_active dropped = true
is_active working = true
is_active _ = false

pub record IsOrderly (s : Index) : Type 0 where
  pub fresh : (j : ℕ) → s.next_job_id ≤ j → s.phase j ≡ unborn
  pub live :
      (j : ℕ)
      → is_live (s.phase j) ≡ true
      → (s.slot.job_id ≡ j) × (is_running s.slot.status.state ≡ true)
  pub owned : (j : ℕ) → is_active (s.phase j) ≡ true → s.active ≡ some j
  pub held :
      is_running s.slot.status.state ≡ true
      → (is_live (s.phase s.slot.job_id) ≡ true) × (s.slot.job_id < s.next_job_id)

active-live : (p : Phase) → is_active p ≡ true → is_live p ≡ true
active-live unborn h = absurd (ground arith)
active-live claimed h = refl
active-live listed h = refl
active-live dropped h = refl
active-live working h = refl
active-live leaving h = absurd (ground arith)
active-live gone h = absurd (ground arith)

-- The slot's job and state stay.
abbrev Keeps : IndexStatusSlot → IndexStatusSlot → Type 0
Keeps old new = (new.job_id ≡ old.job_id) × (new.status.state ≡ old.status.state)

increment_scanned-Keeps : (j : ℕ) (slot : IndexStatusSlot) → Keeps slot (increment_scanned j slot)
unfolding increment_scanned update_status
increment_scanned-Keeps j slot = ground arith

increment_matched-Keeps : (j : ℕ) (slot : IndexStatusSlot) → Keeps slot (increment_matched j slot)
unfolding increment_matched update_status
increment_matched-Keeps j slot = ground arith

note_file_processed-Keeps :
    (j : ℕ) (slot : IndexStatusSlot) → Keeps slot (note_file_processed j slot)
unfolding note_file_processed update_status
note_file_processed-Keeps j slot = ground arith

note_file_failed-Keeps :
    (j : ℕ) (path : Option Text) (slot : IndexStatusSlot)
    → Keeps slot (note_file_failed j path slot)
unfolding note_file_failed update_status
note_file_failed-Keeps j path slot = ground arith

note_cancel-Keeps : (j : ℕ) (slot : IndexStatusSlot) → Keeps slot (note_cancel j slot)
unfolding note_cancel
note_cancel-Keeps j slot = ground arith

final_state-ends :
    (c : Bool) (j : ℕ) (slot : IndexStatusSlot) → is_running (final_state c j slot) ≡ false
unfolding final_state
final_state-ends true j slot = refl
final_state-ends false j slot = ground arith

keep-IsOrderly :
    (s : Index) (slot : IndexStatusSlot)
    → IsOrderly s
    → Keeps s.slot slot
    → IsOrderly (record s { slot = slot })
keep-IsOrderly s slot v k = record {
  fresh = v.fresh;
  live = λ j h. (k.0 ∙ (v.live j h).0, rw k.1 ((v.live j h).1));
  owned = v.owned;
  held = λ h. rw k.0 (v.held (rw (sym k.1) h));
}

claim-IsOrderly :
    (s : Index) (now : ℕ) (src : Text)
    → is_running s.slot.status.state ≡ false
    → IsOrderly s
    → IsOrderly (record s {
      next_job_id = s.next_job_id + 1;
      slot = record { job_id = s.next_job_id; status = started now src };
      phase = set s.next_job_id claimed s.phase;
    })
unfolding started default_status
claim-IsOrderly s now src free v = record {
  fresh = λ j h. ground (arith, v.fresh j);
  live = λ j h. ground (arith, v.live j);
  owned = λ j h. ground (arith, v.owned j, v.live j);
  held = λ h. ground arith;
}

list-IsOrderly :
    (s : Index) (j : ℕ)
    → s.phase j ≡ claimed
    → IsOrderly s
    → IsOrderly (record s { active = some j; phase = set j listed s.phase })
list-IsOrderly s j at v = record {
  fresh = λ k h. ground (arith, v.fresh k, v.fresh j);
  live = λ k h. ground (arith, v.live k, v.live j);
  owned = λ k h. ground (arith, v.live k, v.live j);
  held = λ h. ground (arith, v.held h);
}

-- A step of a job that stays live and active.
move-IsOrderly :
    (s : Index) (j : ℕ) (p : Phase)
    → is_active (s.phase j) ≡ true
    → is_active p ≡ true
    → IsOrderly s
    → IsOrderly (record s { phase = set j p s.phase })
move-IsOrderly s j p at to v = record {
  fresh = λ k h. ground (arith, v.fresh k, v.fresh j);
  live = λ k h. ground (arith, v.live k, v.live j, active-live (s.phase j) at);
  owned = λ k h. ground (arith, v.owned k, v.owned j);
  held = λ h. ground (arith, v.held h, active-live p to);
}

report-IsOrderly :
    (s : Index) (j now : ℕ)
    → s.phase j ≡ working
    → IsOrderly s
    → IsOrderly (record s {
      slot = finish_status j (final_state (s.cancel j) j s.slot) now s.slot;
      phase = set j leaving s.phase;
    })
unfolding finish_status update_status
report-IsOrderly s j now at v = record {
  fresh = λ k h. ground (arith, v.fresh k, v.fresh j);
  live = λ k h. ground (arith, v.live k, v.live j);
  owned = λ k h. ground (arith, v.owned k);
  held = λ h. ground (arith, v.live j, final_state-ends (s.cancel j) j s.slot);
}

leave-IsOrderly :
    (s : Index) (j : ℕ)
    → s.phase j ≡ leaving
    → IsOrderly s
    → IsOrderly (record s { active = finish_active j s.active; phase = set j gone s.phase })
unfolding finish_active
leave-IsOrderly s j at v = record {
  fresh = λ k h. ground (arith, v.fresh k, v.fresh j);
  live = λ k h. ground (arith, v.live k);
  owned = λ k h. ground (arith, v.owned k);
  held = λ h. ground (arith, v.held h);
}

Step-IsOrderly : {s t : Index} → Step s t → IsOrderly s → IsOrderly t
Step-IsOrderly (claim s now src free) v = claim-IsOrderly s now src free v
Step-IsOrderly (refuse s busy) v = record {
  fresh = λ j h. v.fresh j (omega arith);
  live = v.live;
  owned = v.owned;
  held = λ h. ((v.held h).0, omega (arith, (v.held h).1));
}
Step-IsOrderly (list s j at) v = list-IsOrderly s j at v
Step-IsOrderly (drop s j at) v = move-IsOrderly s j dropped (rw at refl) refl v
Step-IsOrderly (spawn s j at) v = move-IsOrderly s j working (rw at refl) refl v
Step-IsOrderly (scan s j) v = keep-IsOrderly s _ v (increment_scanned-Keeps j s.slot)
Step-IsOrderly (match s j) v = keep-IsOrderly s _ v (increment_matched-Keeps j s.slot)
Step-IsOrderly (process s j) v = keep-IsOrderly s _ v (note_file_processed-Keeps j s.slot)
Step-IsOrderly (fail s j path) v = keep-IsOrderly s _ v (note_file_failed-Keeps j path s.slot)
Step-IsOrderly (flag s j at) v = record {
  fresh = v.fresh;
  live = v.live;
  owned = v.owned;
  held = v.held;
}
Step-IsOrderly (note s j at) v = keep-IsOrderly s _ v (note_cancel-Keeps j s.slot)
Step-IsOrderly (report s j now at) v = report-IsOrderly s j now at v
Step-IsOrderly (leave s j at) v = leave-IsOrderly s j at v

pub Run-IsOrderly : {s t : Index} → Run s t → IsOrderly s → IsOrderly t
Run-IsOrderly here v = v
Run-IsOrderly (next r step) v = Step-IsOrderly step (Run-IsOrderly r v)

pub initial-IsOrderly : IsOrderly initial
unfolding initial default_status
initial-IsOrderly = record {
  fresh = λ j h. refl;
  live = λ j h. absurd (ground arith);
  owned = λ j h. absurd (ground arith);
  held = λ h. absurd (ground arith);
}

-- However the calls and the tasks interleave, at most one index job is under way, the status shows that
-- job as running, and while its task works it is the active one, so that a cancel reaches it.
pub one_job :
    {s : Index} (j k : ℕ)
    → Run initial s
    → s.phase j ≡ working
    → is_live (s.phase k) ≡ true
    → (k ≡ j) × (s.slot.job_id ≡ j) × (is_running s.slot.status.state ≡ true) × (s.active ≡ some j)
one_job {s} j k r at live =
    let v = Run-IsOrderly r initial-IsOrderly in
    let (mine, runs) = v.live j (rw at refl) in
    (sym (v.live k live).0 ∙ mine, mine, runs, v.owned j (rw at refl))
