-- ===== src/Tasks/Intake/Tests.antt =====
-- The intake with one scan item.
use picasu.Prelude.{◌≤◌, ◌≡◌, refl, ◌↔◌, none, [], ◌∷◌, ◌++◌}
use picasu.Model.Text.{Text}
use picasu.Tasks.Intake.{
  watcher_index, watcher_remove, Generations, next_generation, note_item_submitted, scan_job,
}
use picasu.Tasks.Intake.System.{Intake, Run, empty, here, next, submit_scan, new_item}
use picasu.Tasks.Priority.{scan}
use picasu.Tasks.Intake.Drain.{pending, drain_exact}
use picasu.Tasks.Intake.Reuse.{old_scan, index_item, removal, submits, removal_lost}

abbrev photo : Text
photo = 112 ∷ []

abbrev generations : Generations
generations = (photo, 1) ∷ []

removal_lost_example :
    (t : Intake) × (r : Run empty t) × (submits r
      ≡ (photo, scan_job 7) ∷ (photo, watcher_index) ∷ (photo, watcher_remove) ∷ [])
    × (t.skipped ≡ removal photo 7 none none ∷ [])
    × (t.processed ≡ index_item photo 7 none none ∷ old_scan photo 7 none none ∷ [])
    × (t.sending ++ (t.queued ++ t.working) ≡ [])
removal_lost_example = removal_lost photo 7 none none

-- A scan item that was submitted and not yet sent.
abbrev submitted : Intake
submitted = record empty {
  generations = (next_generation photo []).1;
  jobs = note_item_submitted 7 empty.jobs;
  sending = new_item photo scan (scan_job 7) (next_generation photo []).0 none none ∷ [];
}

drain_exact_example :
    (((submitted.jobs 7).submitted ≤ (submitted.jobs 7).completed) ↔ (pending 7 submitted ≡ 0))
    × ((submitted.jobs 7).completed ≤ (submitted.jobs 7).submitted)
drain_exact_example = drain_exact submitted (next here (submit_scan photo 7 none none refl)) 7
