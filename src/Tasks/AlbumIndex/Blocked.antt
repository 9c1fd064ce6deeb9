-- ===== src/Tasks/AlbumIndex/Blocked.antt =====
-- backend/src/tasks/actor/album_index.rs: a start that fails after it took the status slot.
use picasu.Prelude.{ℕ, ◌≡◌, refl, true, arith}
use picasu.Tasks.AlbumIndex.{is_running}
use picasu.Tasks.AlbumIndex.System.{
  dropped, Index, initial, Step, claim, refuse, list, drop, spawn, scan, match, process, fail, flag,
  note, report, leave, Run, here, next,
}
use picasu.Tasks.AlbumIndex.Jobs.{IsOrderly, Run-IsOrderly, initial-IsOrderly}

dropped-stays :
    {s t : Index} (j : ℕ) → Step s t → IsOrderly s → s.phase j ≡ dropped → t.phase j ≡ dropped
dropped-stays j (claim s now src free) v h = ground (arith, v.fresh j)
dropped-stays j (refuse s busy) v h = h
dropped-stays j (list s i at) v h = ground arith
dropped-stays j (drop s i at) v h = ground arith
dropped-stays j (spawn s i at) v h = ground arith
dropped-stays j (scan s i) v h = h
dropped-stays j (match s i) v h = h
dropped-stays j (process s i) v h = h
dropped-stays j (fail s i path) v h = h
dropped-stays j (flag s i at) v h = h
dropped-stays j (note s i at) v h = h
dropped-stays j (report s i now at) v h = ground arith
dropped-stays j (leave s i at) v h = ground arith

run-stays :
    {s t : Index} (j : ℕ) → Run s t → IsOrderly s → s.phase j ≡ dropped → t.phase j ≡ dropped
run-stays j here v h = h
run-stays j (next r step) v h = dropped-stays j step (Run-IsOrderly r v) (run-stays j r v h)

-- If clearing the tables fails, the call returns an error with its job marked as running and no task to
-- end it: from then on, whatever happens, cancels included, the status shows that job as running, so every
-- later call is refused.
pub failed_start_blocks :
    {s t : Index} (j : ℕ)
    → Run initial s
    → s.phase j ≡ dropped
    → Run s t
    → (is_running t.slot.status.state ≡ true) × (t.slot.job_id ≡ j) × (t.phase j ≡ dropped)
failed_start_blocks {s} {t} j before at after =
    let v = Run-IsOrderly before initial-IsOrderly in
    let still = run-stays j after v at in
    let (mine, runs) = (Run-IsOrderly after v).live j (rw still refl) in (runs, mine, still)
