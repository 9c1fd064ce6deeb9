-- ===== src/Tasks/Writer/Programs.antt =====
-- The program of a pass: each generation that it names is that of ops it has written before.
use picasu.Prelude.{ℕ, ◌≤◌, ◌≡◌, ◌⊎◌, inr, length, refl, ap, List, [], ◌∷◌, ◌++◌, arith}
use picasu.Tasks.Writer.Plan.{
  flush, Message, Merge, Task, commit, enqueue, complete, merge, no_merge, add_flush, flush_tasks,
  op_tasks, plan,
}
use picasu.Tasks.Writer.Line.{max_seq, max_seq-append}

module _ {A D P : Type 0} where
  -- Each `complete` comes after its ops were written, and each `enqueue` names the largest
  -- generation of its ops.
  abbrev pub ProgramOk : List (Message A D P) → List (Task A D P) → Type 0
  ProgramOk w [] = Unit
  ProgramOk w (commit ms x ∷ p) = ProgramOk (w ++ ms) p
  ProgramOk w (enqueue ms q o ∷ p) = (q ≡ max_seq ms) × (1 ≤ length ms) × ProgramOk w p
  ProgramOk w (complete q ∷ p) = (q ≤ max_seq w) × ProgramOk w p

  -- The watermark is the largest generation of the ops that were done last.
  abbrev pub Last : List (Message A D P) → ℕ → Type 0
  Last w c =
      ((w ≡ []) × (c ≡ 0))
      ⊎ ((before : List (Message A D P)) × (batch : List (Message A D P)) × (w ≡ before ++ batch)
          × (1 ≤ length batch)
          × (c ≡ max_seq batch))

  -- So it will be when the program is done.
  abbrev pub ProgramLast : List (Message A D P) → ℕ → List (Task A D P) → Type 0
  ProgramLast w c [] = Last w c
  ProgramLast w c (commit ms x ∷ p) = ProgramLast (w ++ ms) c p
  ProgramLast w c (enqueue ms q o ∷ p) = ProgramLast w c p
  ProgramLast w c (complete q ∷ p) = ProgramLast w q p

  merge-seq :
      (m : Merge A D P) (p : List (Message A D P))
      → m.flush_seq ≡ max_seq m.merged
      → (merge m p).0.flush_seq ≡ max_seq (merge m p).0.merged
  unfolding merge
  merge-seq m [] h = h
  merge-seq m ((seq, flush ins rem) ∷ rest) h =
      merge-seq (add_flush m seq ins rem) rest
        (omega (arith, max_seq-append m.merged ((seq, flush ins rem) ∷ [])))
  merge-seq m (_ ∷ rest) h = h

  op_tasks-ProgramOk : (w p : List (Message A D P)) → ProgramOk w (op_tasks p).0
  unfolding op_tasks
  op_tasks-ProgramOk w [] = tt
  op_tasks-ProgramOk w ((q, op) ∷ p) =
      (omega arith, omega arith, (omega (arith, max_seq-append w ((q, op) ∷ [])), tt))

  flush_tasks-ProgramOk :
      (w : List (Message A D P)) (m : Merge A D P) (l : List (Message A D P))
      (q : List (Task A D P))
      → m.merged ≡ l
      → m.flush_seq ≡ max_seq m.merged
      → ((v : List (Message A D P)) → ProgramOk v q)
      → ProgramOk w (flush_tasks m l ++ q)
  unfolding flush_tasks
  flush_tasks-ProgramOk w m [] q e h ok = ok w
  flush_tasks-ProgramOk w m (x ∷ l) q e h ok = (
    h,
    omega (arith, ap length e),
    (omega (arith, max_seq-append w m.merged), ok (w ++ m.merged)),
  )

  pub plan-ProgramOk : (w p : List (Message A D P)) → ProgramOk w (plan p).0
  unfolding plan
  plan-ProgramOk w p =
      flush_tasks-ProgramOk w (merge no_merge p).0 (merge no_merge p).0.merged
        (op_tasks (merge no_merge p).1).0 refl (merge-seq no_merge p (omega arith))
        (λ v. op_tasks-ProgramOk v (merge no_merge p).1)

  op_tasks-ProgramLast :
      (w p : List (Message A D P)) (c : ℕ) → Last w c → ProgramLast w c (op_tasks p).0
  unfolding op_tasks
  op_tasks-ProgramLast w [] c h = h
  op_tasks-ProgramLast w ((q, op) ∷ p) c h = inr (w, (q, op) ∷ [], refl, omega arith, omega arith)

  flush_tasks-ProgramLast :
      (w : List (Message A D P)) (c : ℕ) (m : Merge A D P) (l p : List (Message A D P))
      → m.merged ≡ l
      → m.flush_seq ≡ max_seq m.merged
      → Last w c
      → ProgramLast w c (flush_tasks m l ++ (op_tasks p).0)
  unfolding flush_tasks
  flush_tasks-ProgramLast w c m [] p e h last = op_tasks-ProgramLast w p c last
  flush_tasks-ProgramLast w c m (x ∷ l) p e h last =
      op_tasks-ProgramLast (w ++ m.merged) p m.flush_seq
        (inr (w, m.merged, refl, omega (arith, ap length e), h))

  pub plan-ProgramLast :
      (w p : List (Message A D P)) (c : ℕ) → Last w c → ProgramLast w c (plan p).0
  unfolding plan
  plan-ProgramLast w p c last =
      flush_tasks-ProgramLast w c (merge no_merge p).0 (merge no_merge p).0.merged
        (merge no_merge p).1 refl (merge-seq no_merge p (omega arith)) last
