-- ===== src/Tasks/Writer/Watermark.antt =====
-- What the two watermarks stand for: the largest generation among the ops that were written, and
-- among those whose cascades were run.
use mathlib.Core.List.{append_assoc, append-nil}
use picasu.Prelude.{◌≤◌, ◌≡◌, inl, inr, length, refl, sym, ap, List, [], ◌∷◌, ◌++◌, arith}
use picasu.Tasks.Writer.Plan.{commit, enqueue, complete}
use picasu.Tasks.Writer.System.{
  System, Cascade, Step, fetch, send, receive, pass, write, forward, store, cascade_start,
  cascade_finish, Run, here, next, initial,
}
use picasu.Tasks.Writer.Line.{members, max_seq, max_seq-append}
use picasu.Tasks.Writer.Programs.{ProgramOk, Last, ProgramLast, plan-ProgramOk, plan-ProgramLast}

module _ {A D P : Type 0} where
  abbrev pub CascadesOk : List (Cascade A D P) → Type 0
  CascadesOk [] = Unit
  CascadesOk (c ∷ cs) = (c.seq ≡ max_seq c.members) × (1 ≤ length c.members) × CascadesOk cs

  pub record IsSound (s : System A D P) : Type 0 where
    pub program : ProgramOk s.written s.program
    pub inbox : CascadesOk s.cascade_inbox
    pub running : CascadesOk s.cascading
    pub completed : s.completed ≤ max_seq s.written
    pub cascade_completed : s.cascade_completed ≤ max_seq (members s.cascaded)
    pub last : ProgramLast s.written s.completed s.program
    pub cascade_last : Last (members s.cascaded) s.cascade_completed

  CascadesOk-append :
      (xs ys : List (Cascade A D P)) → CascadesOk xs → CascadesOk ys → CascadesOk (xs ++ ys)
  CascadesOk-append [] ys hx hy = hy
  CascadesOk-append (c ∷ xs) ys hx hy = (hx.0, hx.1, CascadesOk-append xs ys hx.2 hy)

  members-snoc :
      (cs : List (Cascade A D P)) (c : Cascade A D P)
      → members (cs ++ c ∷ []) ≡ members cs ++ c.members
  members-snoc [] c = append-nil c.members
  members-snoc (d ∷ cs) c = rw (members-snoc cs c) (sym (append_assoc d.members _ _))

  Step-IsSound : (s t : System A D P) → Step s t → IsSound s → IsSound t
  Step-IsSound s t (fetch op e) v = rw e (record {
    program = v.program;
    inbox = v.inbox;
    running = v.running;
    completed = v.completed;
    cascade_completed = v.cascade_completed;
    last = v.last;
    cascade_last = v.cascade_last;
  })
  Step-IsSound s t (send before after m _ _ e) v = rw e (record {
    program = v.program;
    inbox = v.inbox;
    running = v.running;
    completed = v.completed;
    cascade_completed = v.cascade_completed;
    last = v.last;
    cascade_last = v.cascade_last;
  })
  Step-IsSound s t (receive m rest empty full e) v = rw e (record {
    program = v.program;
    inbox = v.inbox;
    running = v.running;
    completed = v.completed;
    cascade_completed = v.cascade_completed;
    last = v.last;
    cascade_last = v.cascade_last;
  })
  Step-IsSound s t (pass empty e) v =
      let idle : Last s.written s.completed = rw empty at v.last in
      rw e (record {
        program = plan-ProgramOk s.written s.pending;
        inbox = v.inbox;
        running = v.running;
        completed = v.completed;
        cascade_completed = v.cascade_completed;
        last = plan-ProgramLast s.written s.pending s.completed idle;
        cascade_last = v.cascade_last;
      })
  Step-IsSound s t (write ms x rest head e) v =
      let p : ProgramOk s.written (commit ms x ∷ rest) = rw head at v.program in
      let l : ProgramLast s.written s.completed (commit ms x ∷ rest) = rw head at v.last in
      rw e (record {
        program = p;
        inbox = v.inbox;
        running = v.running;
        completed = omega (arith, v.completed, max_seq-append s.written ms);
        cascade_completed = v.cascade_completed;
        last = l;
        cascade_last = v.cascade_last;
      })
  Step-IsSound s t (forward ms q o rest head room e) v =
      let p : ProgramOk s.written (enqueue ms q o ∷ rest) = rw head at v.program in
      let l : ProgramLast s.written s.completed (enqueue ms q o ∷ rest) = rw head at v.last in
      rw e (record {
        program = p.2;
        inbox = CascadesOk-append s.cascade_inbox _ v.inbox (p.0, p.1, tt);
        running = v.running;
        completed = v.completed;
        cascade_completed = v.cascade_completed;
        last = l;
        cascade_last = v.cascade_last;
      })
  Step-IsSound s t (store q rest head e) v =
      let p : ProgramOk s.written (complete q ∷ rest) = rw head at v.program in
      let l : ProgramLast s.written s.completed (complete q ∷ rest) = rw head at v.last in
      rw e (record {
        program = p.1;
        inbox = v.inbox;
        running = v.running;
        completed = p.0;
        cascade_completed = v.cascade_completed;
        last = l;
        cascade_last = v.cascade_last;
      })
  Step-IsSound s t (cascade_start c rest idle head e) v =
      let p : CascadesOk (c ∷ rest) = rw head at v.inbox in
      rw e (record {
        program = v.program;
        inbox = p.2;
        running = (p.0, p.1, tt);
        completed = v.completed;
        cascade_completed = v.cascade_completed;
        last = v.last;
        cascade_last = v.cascade_last;
      })
  Step-IsSound s t (cascade_finish c busy e) v =
      let p : CascadesOk (c ∷ []) = rw busy at v.running in
      rw e (record {
        program = v.program;
        inbox = v.inbox;
        running = tt;
        completed = v.completed;
        cascade_completed = omega (
          arith,
          p.0,
          ap max_seq (members-snoc s.cascaded c),
          max_seq-append (members s.cascaded) c.members,
        );
        last = v.last;
        cascade_last =
            rw (members-snoc s.cascaded c) (inr (members s.cascaded, c.members, refl, p.1, p.0));
      })

  pub Run-IsSound : (s t : System A D P) → Run s t → IsSound s → IsSound t
  Run-IsSound s s' here v = v
  Run-IsSound s u (next {t = t} r st) v = Step-IsSound t u st (Run-IsSound s t r v)

  pub initial-IsSound : IsSound (initial {A = A} {D = D} {P = P})
  initial-IsSound = record {
    program = tt;
    inbox = tt;
    running = tt;
    completed = omega arith;
    cascade_completed = omega arith;
    last = inl (refl, refl);
    cascade_last = inl (refl, refl);
  }
