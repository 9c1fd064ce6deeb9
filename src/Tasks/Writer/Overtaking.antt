-- ===== src/Tasks/Writer/Overtaking.antt =====
-- `submit` hands out a generation and sends the op in two steps, so a later submitter may come into
-- the channel first; `complete_seq` then sets the watermark back.
use mathlib.Core.Path.{subst}
use picasu.Prelude.{ℕ, ◌+◌, ◌<◌, ◌≡◌, refl, sym, max, List, [], ◌∷◌, ◌++◌, arith}
use picasu.Tasks.Writer.Plan.{
  flush, barrier_mark, Message, Transaction, flush_tables, no_write, CascadeOp, update_tree_chain,
  noop, Task, commit, enqueue, complete, plan, merge, flush_tasks, op_tasks, handle_op,
}
use picasu.Tasks.Writer.System.{
  System, Cascade, Step, fetch, send, receive, pass, write, forward, store, cascade_start,
  cascade_finish, Run, here, next,
}
use picasu.Tasks.Writer.Barrier.{IsIdle, Run-trans}

module _ {A D P : Type 0} where
  abbrev pub with_inbox : System A D P → List (Message A D P) → System A D P
  with_inbox s inbox = record s {
    sending = [];
    inbox = inbox;
    pending = [];
    program = [];
    cascade_inbox = [];
    cascading = [];
  }

  abbrev tasks_for : Message A D P → Transaction A D P → ℕ → CascadeOp → List (Task A D P)
  tasks_for m x q o = commit (m ∷ []) x ∷ enqueue (m ∷ []) q o ∷ complete q ∷ []

  abbrev pub cascade_for : Message A D P → ℕ → CascadeOp → Cascade A D P
  cascade_for m q o = record { members = m ∷ []; seq = q; op = o }

  abbrev pub done_with :
      System A D P → Message A D P → Transaction A D P → ℕ → CascadeOp → System A D P
  done_with s m x q o = record s {
    completed = q;
    cascade_completed = q;
    written = s.written ++ m ∷ [];
    transactions = s.transactions ++ x ∷ [];
    cascaded = s.cascaded ++ cascade_for m q o ∷ [];
  }

  abbrev with_program : System A D P → List (Message A D P) → List (Task A D P) → System A D P
  with_program s inbox program = record (with_inbox s inbox) { program = program }

  pass_first :
      (s : System A D P) (m : Message A D P) (rest : List (Message A D P)) (p : List (Task A D P))
      → plan (m ∷ []) ≡ (p, [])
      → Step (record (with_inbox s rest) { pending = m ∷ [] }) (with_program s rest p)
  pass_first s m rest p planned = pass refl (rw planned)

  -- Both stages handle the first op of the channel before the next is received.
  pub handle_first :
      (s : System A D P) (m : Message A D P) (rest : List (Message A D P)) (x : Transaction A D P)
      (q : ℕ) (o : CascadeOp)
      → plan (m ∷ []) ≡ (tasks_for m x q o, [])
      → Run (with_inbox s (m ∷ rest)) (with_inbox (done_with s m x q o) rest)
  handle_first s m rest x q o planned =
      next
        (next
          (next
            (next
              (next
                (next (next here (receive m rest refl refl refl))
                  (pass_first s m rest (tasks_for m x q o) planned))
                (write (m ∷ []) x (enqueue (m ∷ []) q o ∷ complete q ∷ []) refl refl))
              (forward (m ∷ []) q o (complete q ∷ []) refl (omega arith) refl))
            (store q [] refl refl))
          (cascade_start (cascade_for m q o) [] refl refl refl))
        (cascade_finish (cascade_for m q o) refl refl)

  pub plan_barrier :
      (q : ℕ)
      → plan {A = A} {D = D} {P = P} ((q, barrier_mark) ∷ [])
        ≡ (tasks_for (q, barrier_mark) no_write q noop, [])
  unfolding plan merge flush_tasks op_tasks handle_op
  plan_barrier q = refl

  pub plan_flush :
      (q : ℕ) (ins rem : List A)
      → plan {A = A} {D = D} {P = P} ((q, flush ins rem) ∷ [])
        ≡ (tasks_for (q, flush ins rem) (flush_tables ins rem) q update_tree_chain, [])
  unfolding plan merge flush_tasks op_tasks handle_op
  plan_flush q ins rem = let e : max 0 q ≡ q = omega arith in rw e

  abbrev overtaken : System A D P → List A → List A → System A D P
  overtaken s ins rem =
      done_with
        (done_with (record s { next_seq = s.next_seq + 1 + 1 }) (s.next_seq + 1, barrier_mark)
          no_write (s.next_seq + 1) noop)
        (s.next_seq, flush ins rem) (flush_tables ins rem) s.next_seq update_tree_chain

  overtaking-Run :
      (s : System A D P) (ins rem : List A)
      → Run (with_inbox s []) (with_inbox (overtaken s ins rem) [])
  overtaking-Run s ins rem =
      let n = s.next_seq in
      let f : Message A D P = (n, flush ins rem) in
      let b : Message A D P = (n + 1, barrier_mark) in
      let after = record s { next_seq = n + 1 + 1 } in
      Run-trans _ (with_inbox after (b ∷ f ∷ [])) _
        (next
          (next (next (next here (fetch (flush ins rem) refl)) (fetch barrier_mark refl))
            (send (f ∷ []) [] b refl (omega arith) refl))
          (send [] [] f refl (omega arith) refl))
        (Run-trans _ (with_inbox (done_with after b no_write (n + 1) noop) (f ∷ [])) _
          (handle_first after b (f ∷ []) no_write (n + 1) noop (plan_barrier (n + 1)))
          (handle_first (done_with after b no_write (n + 1) noop) f [] (flush_tables ins rem) n
            update_tree_chain (plan_flush n ins rem)))

  idle-with_inbox : (s : System A D P) → IsIdle s → s ≡ with_inbox s []
  idle-with_inbox s i = λ k. record {
    next_seq = s.next_seq;
    completed = s.completed;
    cascade_completed = s.cascade_completed;
    sending = i.sending k;
    inbox = i.inbox k;
    pending = i.pending k;
    program = i.program k;
    cascade_inbox = i.cascade_inbox k;
    cascading = i.cascading k;
    written = s.written;
    transactions = s.transactions;
    cascaded = s.cascaded;
  }

  -- From every idle state, for every flush, the tasks can run as follows: the flush gets its
  -- generation before a barrier's marker and comes into the channel behind it. Then both ops are
  -- written and cascaded, the system is idle again, and both watermarks stand below the marker's
  -- generation, so that the barrier is left waiting.
  pub barrier_overtakes :
      (s : System A D P) (ins rem : List A)
      → IsIdle s
      → (t : System A D P) × Run s t
        × IsIdle t
        × (t.written
            ≡ (s.written ++ (s.next_seq + 1, barrier_mark) ∷ [])
              ++ (s.next_seq, flush ins rem) ∷ [])
        × (t.completed < s.next_seq + 1)
        × (t.cascade_completed < s.next_seq + 1)
  barrier_overtakes s ins rem idle = (
    with_inbox (overtaken s ins rem) [],
    subst (λ r. Run r (with_inbox (overtaken s ins rem) [])) (sym (idle-with_inbox s idle))
        (overtaking-Run s ins rem),
    record {
      sending = refl;
      inbox = refl;
      pending = refl;
      program = refl;
      cascade_inbox = refl;
      cascading = refl;
    },
    refl,
    omega arith,
    omega arith,
  )
