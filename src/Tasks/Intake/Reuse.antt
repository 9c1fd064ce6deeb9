-- ===== src/Tasks/Intake/Reuse.antt =====
-- What a submit supersedes, and what it does not: a path's generations start again when its record was
-- released, so an old item can pass for new.
use mathlib.Core.List.{append_assoc, append-nil}
use picasu.Prelude.{
  ℕ, ◌+◌, ◌≡◌, refl, sym, ap, ap₂, ◌∙◌, false, not, Option, none, some, List, [], ◌∷◌, ◌++◌,
  if◌then◌else◌, map_or, ◌==◌, arith,
}
use picasu.Model.Text.{Text, text_eq}
use picasu.Model.Text.Table.{find, insert, delete, find-insert, text_eq_refl}
use picasu.Tasks.Priority.{scan, watcher, lane_index}
use picasu.Tasks.Intake.{
  IntakeKind, scan_job, watcher_index, watcher_remove, expire_check, interactive_album, IntakeItem,
  Generations, Jobs, no_progress, note_item_submitted, note_item_complete, next_generation,
  current_generation, release_generation, is_superseded, is_stale, judge, skips, runs,
  complete_item, release_item,
}
use picasu.Tasks.Intake.System.{
  Intake, Step, submit_expire_check, submit_interactive_album, drop, drain, new_item, submit_scan,
  submit_watcher_index, submit_watcher_remove, enqueue, skip, begin, finish, Run, here, next, empty,
}

-- After a submit, an item of the same path is superseded unless it has the generation just handed out,
-- whatever its lane, and the items of other paths are judged as before.
pub next_generation-supersedes :
    (path : Text) (generations : Generations) (m : IntakeItem)
    → (m.path ≡ path
        → is_superseded m (next_generation path generations).1
          ≡ not ((next_generation path generations).0 == m.generation))
      × (text_eq path m.path ≡ false
          → is_superseded m (next_generation path generations).1 ≡ is_superseded m generations)
unfolding next_generation is_superseded current_generation
next_generation-supersedes path generations m =
    let g = map_or 0 (λ g. g) (find path generations) + 1 in
    let stored = find-insert path m.path g generations in
    (
      λ same. ground (arith, stored, same, text_eq_refl path),
      λ other. ground (arith, stored, other),
    )

-- The path and the kind of the item that a step submits.
abbrev step_submits : {s t : Intake} → Step s t → List (Text × IntakeKind)
step_submits (submit_scan path job_id mtime len e) = (path, scan_job job_id) ∷ []
step_submits (submit_watcher_index path mtime len e) = (path, watcher_index) ∷ []
step_submits (submit_watcher_remove path e) = (path, watcher_remove) ∷ []
step_submits (submit_expire_check e) = ([], expire_check) ∷ []
step_submits (submit_interactive_album album_id e) = ([], interactive_album album_id) ∷ []
step_submits (enqueue before after m e room e') = []
step_submits (skip before after m meta e first j e') = []
step_submits (drop before after m meta e first j e') = []
step_submits (begin before after m meta e first j e') = []
step_submits (finish before after m e e') = []
step_submits (drain job_id done e) = []

-- What was submitted in a run, the oldest first.
abbrev pub submits : {s t : Intake} → Run s t → List (Text × IntakeKind)
submits here = []
submits (next r st) = submits r ++ step_submits st

Run-trans :
    (s t u : Intake) (r : Run s t) (q : Run t u)
    → (w : Run s u) × (submits w ≡ submits r ++ submits q)
Run-trans s t t' r here = (r, sym (append-nil (submits r)))
Run-trans s t u r (next {t = v} q st) =
    let (w, e) = Run-trans s t v r q in
    (
      next w st,
      ap (λ l. l ++ step_submits st) e ∙ append_assoc (submits r) (submits q) (step_submits st),
    )

module _ (path : Text) (job_id : ℕ) (mtime len : Option ℕ) where
  abbrev pub old_scan : IntakeItem
  old_scan = new_item path scan (scan_job job_id) 1 mtime len

  abbrev pub index_item : IntakeItem
  index_item = new_item path watcher watcher_index 2 mtime len

  abbrev pub removal : IntakeItem
  removal = new_item path watcher watcher_remove 1 none none

  abbrev at_generation : ℕ → Generations
  at_generation g = (path, g) ∷ []

  found : (g : ℕ) → find path (at_generation g) ≡ some g
  unfolding find
  found g = ap (λ b. if b then some g else none) (text_eq_refl path)

  first_generation : next_generation path [] ≡ (1, at_generation 1)
  unfolding next_generation find insert
  first_generation = refl

  second_generation : next_generation path (at_generation 1) ≡ (2, at_generation 2)
  unfolding next_generation insert
  second_generation = ground (arith, found 1, text_eq_refl path)

  released :
      (m : IntakeItem) (g : ℕ)
      → m.path ≡ path
      → m.generation ≡ g
      → release_generation m (at_generation g) ≡ []
  unfolding release_generation delete
  released m g p e = ground (arith, found g, text_eq_refl path, p, e)

  current :
      (m : IntakeItem) (g : ℕ)
      → m.path ≡ path
      → m.generation ≡ g
      → is_superseded m (at_generation g) ≡ false
  unfolding is_superseded current_generation
  current m g p e = ground (arith, found g, p, e)

  first_verdict : judge index_item none (at_generation 2) ≡ runs
  unfolding judge is_stale
  first_verdict = rw (current index_item 2 refl refl) refl

  second_verdict : judge old_scan none (at_generation 1) ≡ runs
  unfolding judge is_stale
  second_verdict = rw (current old_scan 1 refl refl) refl

  third_verdict : judge removal none [] ≡ skips
  unfolding judge is_superseded current_generation find
  third_verdict = refl

  abbrev jobs : Jobs
  jobs = note_item_submitted job_id (λ j. no_progress)

  abbrev intake_of :
      Generations
      → Jobs
      → List IntakeItem
      → List IntakeItem
      → List IntakeItem
      → List IntakeItem
      → List IntakeItem
      → Intake
  intake_of generations jobs' sending queued working processed skipped = record {
    generations = generations;
    jobs = jobs';
    sending = sending;
    queued = queued;
    working = working;
    processed = processed;
    skipped = skipped;
  }

  first_stage :
      (r : Run empty (intake_of (at_generation 1) jobs [] (old_scan ∷ []) [] [] [])) × (submits r
        ≡ (path, scan_job job_id) ∷ [])
  first_stage = (
    next {t = intake_of (at_generation 1) jobs (old_scan ∷ []) [] [] [] []}
        (next here (
          submit_scan path job_id mtime len (
            ap
              (λ p.
                intake_of p.1 jobs (new_item path scan (scan_job job_id) p.0 mtime len ∷ []) [] []
                  [] [])
              (sym first_generation))))
        (enqueue [] [] old_scan refl (omega arith) refl),
    refl,
  )

  second_stage :
      (r : Run
        (intake_of (at_generation 1) jobs [] (old_scan ∷ []) [] [] [])
        (intake_of [] jobs [] (old_scan ∷ []) [] (index_item ∷ []) []))
      × (submits r ≡ (path, watcher_index) ∷ [])
  unfolding complete_item release_item lane_index
  second_stage = (
    next {t = intake_of (at_generation 2) jobs [] (old_scan ∷ []) (index_item ∷ []) [] []}
        (next {t = intake_of (at_generation 2) jobs [] (old_scan ∷ index_item ∷ []) [] [] []}
          (next {t = intake_of (at_generation 2) jobs (index_item ∷ []) (old_scan ∷ []) [] [] []}
            (next here (
              submit_watcher_index path mtime len (
                ap
                  (λ p.
                    intake_of p.1 jobs (new_item path watcher watcher_index p.0 mtime len ∷ [])
                      (old_scan ∷ []) [] [] [])
                  (sym second_generation))))
            (enqueue [] [] index_item refl (omega arith) refl))
          (begin (old_scan ∷ []) [] index_item none refl ((λ e. absurd (omega (arith, e))), tt)
            first_verdict refl))
        (finish [] [] index_item refl (
          ap (λ g. intake_of g jobs [] (old_scan ∷ []) [] (index_item ∷ []) [])
            (sym (released index_item 2 refl refl)))),
    refl,
  )

  third_stage :
      (r : Run (intake_of [] jobs [] (old_scan ∷ []) [] (index_item ∷ []) []) (
        intake_of []
          (note_item_complete job_id jobs)
          []
          []
          []
          (index_item ∷ old_scan ∷ [])
          (removal ∷ [])))
      × (submits r ≡ (path, watcher_remove) ∷ [])
  unfolding complete_item release_item lane_index
  third_stage = (
    next
        {t = intake_of [] (note_item_complete job_id jobs) [] (removal ∷ []) []
          (index_item ∷ old_scan ∷ []) []}
        (next
          {t = intake_of (at_generation 1) jobs [] (removal ∷ []) (old_scan ∷ []) (index_item ∷ [])
            []}
          (next
            {t = intake_of (at_generation 1) jobs [] (old_scan ∷ removal ∷ []) [] (index_item ∷ [])
              []}
            (next
              {t = intake_of (at_generation 1) jobs (removal ∷ []) (old_scan ∷ []) []
                (index_item ∷ []) []}
              (next here (
                submit_watcher_remove path (
                  ap
                    (λ p.
                      intake_of p.1 jobs (new_item path watcher watcher_remove p.0 none none ∷ [])
                        (old_scan ∷ []) [] (index_item ∷ []) [])
                    (sym first_generation))))
              (enqueue [] [] removal refl (omega arith) refl))
            (begin [] (removal ∷ []) old_scan none refl tt second_verdict refl))
          (finish [] [] old_scan refl (
            ap
              (λ g.
                intake_of g (note_item_complete job_id jobs) [] (removal ∷ []) []
                  (index_item ∷ old_scan ∷ []) [])
              (sym (released old_scan 1 refl refl)))))
        (skip [] [] removal none refl tt third_verdict refl),
    refl,
  )

-- A removal can be lost. For every path, job and file identity, a run from the empty intake submits a scan
-- of the path, then a watcher's index of it and last its removal, and nothing else. The index and then
-- the scan go through their pipelines, but the removal is skipped as superseded, and no item is left.
pub removal_lost :
    (path : Text) (job_id : ℕ) (mtime len : Option ℕ)
    → (t : Intake) × (r : Run empty t) × (submits r
        ≡ (path, scan_job job_id) ∷ (path, watcher_index) ∷ (path, watcher_remove) ∷ [])
      × (t.skipped ≡ removal path job_id mtime len ∷ [])
      × (t.processed ≡ index_item path job_id mtime len ∷ old_scan path job_id mtime len ∷ [])
      × (t.sending ++ (t.queued ++ t.working) ≡ [])
removal_lost path job_id mtime len =
    let (a, first) = first_stage path job_id mtime len in
    let (b, second) = second_stage path job_id mtime len in
    let (c, third) = third_stage path job_id mtime len in
    let (bc, later) = Run-trans _ _ _ b c in
    let (abc, all) = Run-trans _ _ _ a bc in
    (
      _,
      abc,
      all ∙ ap₂ (λ xs ys. xs ++ ys) first (later ∙ ap₂ (λ xs ys. xs ++ ys) second third),
      refl,
      refl,
      refl,
    )
