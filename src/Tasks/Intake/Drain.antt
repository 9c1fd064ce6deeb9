-- ===== src/Tasks/Intake/Drain.antt =====
-- What the end of `drain_intake` says.
use picasu.Prelude.{
  ℕ, ◌+◌, ◌≤◌, ◌≡◌, refl, ap, ◌↔◌, List, [], ◌∷◌, ◌++◌, ◌==◌, if◌then◌else◌, ==_iff, Bool-cases,
  inl, inr, arith,
}
use picasu.Tasks.Intake.{
  IntakeKind, scan_job, watcher_index, watcher_remove, expire_check, interactive_album, IntakeItem,
  Jobs, set_job, note_item_submitted, note_item_complete, remove_job, complete_item,
}
use picasu.Tasks.Intake.System.{
  Intake, Step, submit_scan, submit_watcher_index, submit_watcher_remove, submit_expire_check,
  submit_interactive_album, enqueue, skip, drop, begin, finish, drain, Run, here, next, empty,
}

-- How many of the items are scan items of the job.
abbrev of_job : ℕ → IntakeKind → ℕ
of_job j (scan_job i) = if j == i then 1 else 0
of_job j watcher_index = 0
of_job j watcher_remove = 0
of_job j expire_check = 0
of_job j (interactive_album a) = 0

abbrev pub in_job : ℕ → List IntakeItem → ℕ
in_job j [] = 0
in_job j (m ∷ ms) = of_job j m.kind + in_job j ms

in_job-append : (j : ℕ) (xs ys : List IntakeItem) → in_job j (xs ++ ys) ≡ in_job j xs + in_job j ys
in_job-append j [] ys = omega arith
in_job-append j (x ∷ xs) ys = omega (arith, in_job-append j xs ys)

in_job-taken :
    (j : ℕ) (before after : List IntakeItem) (m : IntakeItem)
    → in_job j (before ++ m ∷ after) ≡ in_job j (before ++ after) + of_job j m.kind
in_job-taken j before after m =
    omega (arith, in_job-append j before (m ∷ after), in_job-append j before after)

in_job-sent :
    (j : ℕ) (ms : List IntakeItem) (m : IntakeItem)
    → in_job j (ms ++ m ∷ []) ≡ in_job j ms + of_job j m.kind
in_job-sent j ms m = omega (arith, in_job-append j ms (m ∷ []))

-- The scan items of the job that are on their way to a worker or with one.
abbrev pub pending : ℕ → Intake → ℕ
pending j s = in_job j s.sending + in_job j s.queued + in_job j s.working

abbrev IsExact : Intake → Type 0
IsExact s = (j : ℕ) → (s.jobs j).submitted ≡ (s.jobs j).completed + pending j s

completed-complete_item :
    (m : IntakeItem) (jobs : Jobs) (j : ℕ)
    → ((complete_item m jobs j).completed ≡ (jobs j).completed + of_job j m.kind)
      × ((complete_item m jobs j).submitted ≡ (jobs j).submitted)
unfolding complete_item note_item_complete set_job
completed-complete_item m jobs j = split m.kind
  where
    split :
        (k : IntakeKind)
        → ((complete_item (record m { kind = k }) jobs j).completed
            ≡ (jobs j).completed + of_job j k)
          × ((complete_item (record m { kind = k }) jobs j).submitted ≡ (jobs j).submitted)
    split (scan_job i) = (ground (arith, ==_iff j i), ground (arith, ==_iff j i))
    split watcher_index = (omega arith, refl)
    split watcher_remove = (omega arith, refl)
    split expire_check = (omega arith, refl)
    split (interactive_album a) = (omega arith, refl)

noted :
    (job_id j : ℕ) (jobs : Jobs)
    → ((note_item_submitted job_id jobs j).submitted
        ≡ (jobs j).submitted + of_job j (scan_job job_id))
      × ((note_item_submitted job_id jobs j).completed ≡ (jobs j).completed)
unfolding note_item_submitted set_job
noted job_id j jobs = (ground (arith, ==_iff j job_id), ground (arith, ==_iff j job_id))

Step-IsExact : (s t : Intake) → Step s t → IsExact s → IsExact t
unfolding remove_job set_job
Step-IsExact s t (submit_scan path job_id mtime len e) v j =
    rw e (omega (arith, v j, noted job_id j s.jobs, in_job-append j s.sending (_ ∷ [])))
Step-IsExact s t (submit_watcher_index path mtime len e) v j =
    rw e (omega (arith, v j, in_job-append j s.sending (_ ∷ [])))
Step-IsExact s t (submit_watcher_remove path e) v j =
    rw e (omega (arith, v j, in_job-append j s.sending (_ ∷ [])))
Step-IsExact s t (submit_expire_check e) v j =
    rw e (omega (arith, v j, in_job-append j s.sending (_ ∷ [])))
Step-IsExact s t (submit_interactive_album album_id e) v j =
    rw e (omega (arith, v j, in_job-append j s.sending (_ ∷ [])))
Step-IsExact s t (enqueue before after m out room e) v j =
    rw e (
      omega
        (arith, v j, ap (in_job j) out, in_job-taken j before after m, in_job-sent j s.queued m))
Step-IsExact s t (skip before after m meta out first verdict e) v j =
    let done = completed-complete_item m s.jobs j in
    rw e (omega (arith, v j, ap (in_job j) out, in_job-taken j before after m, done))
Step-IsExact s t (drop before after m meta out first verdict e) v j =
    let done = completed-complete_item m s.jobs j in
    rw e (omega (arith, v j, ap (in_job j) out, in_job-taken j before after m, done))
Step-IsExact s t (begin before after m meta out first verdict e) v j = rw e (
    omega (arith, v j, ap (in_job j) out, in_job-taken j before after m, in_job-sent j s.working m))
Step-IsExact s t (finish before after m out e) v j =
    let done = completed-complete_item m s.jobs j in
    rw e (omega (arith, v j, ap (in_job j) out, in_job-taken j before after m, done))
Step-IsExact s t (drain job_id enough e) v j = elim (Bool-cases (j == job_id)) [
  | inl same ↦
      let at_job : j ≡ job_id = (==_iff j job_id).0 same in
      let over : (s.jobs j).submitted ≤ (s.jobs j).completed = rw at_job enough in
      rw e (ground (arith, v j))
  | inr other ↦ rw e (ground (arith, v j))
]

Run-IsExact : (s t : Intake) → Run s t → IsExact s → IsExact t
Run-IsExact s t here v = v
Run-IsExact s t (next {t = u} r st) v = Step-IsExact u t st (Run-IsExact s u r v)

-- The barrier of a scan job is exact: at every moment, the job has as many completions as submits if and
-- only if none of its items is on its way to a lane, in a lane or with a worker, and it never has more.
pub drain_exact :
    (s : Intake)
    → Run empty s
    → (job_id : ℕ)
    → (((s.jobs job_id).submitted ≤ (s.jobs job_id).completed) ↔ (pending job_id s ≡ 0))
      × ((s.jobs job_id).completed ≤ (s.jobs job_id).submitted)
drain_exact s r job_id =
    let v = Run-IsExact empty s r (λ j. omega arith) job_id in
    ((λ h. omega (arith, v), λ h. omega (arith, v)), omega (arith, v))
