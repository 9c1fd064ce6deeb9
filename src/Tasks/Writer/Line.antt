-- ===== src/Tasks/Writer/Line.antt =====
-- The ops in the order of the queues: what each step does to the line.
use mathlib.Core.List.{append_assoc, append-nil}
use picasu.Prelude.{ℕ, ◌+◌, ◌≡◌, ◌⊎◌, inl, inr, refl, sym, ap, ◌∙◌, max, List, [], ◌∷◌, ◌++◌, arith}
use picasu.Tasks.Writer.Plan.{
  flush, Message, Merge, Task, commit, enqueue, complete, merge, no_merge, add_flush, flush_tasks,
  op_tasks, plan,
}
use picasu.Tasks.Writer.System.{
  System, Cascade, Step, fetch, send, receive, pass, write, forward, store, cascade_start,
  cascade_finish, Run, here, next,
}

module _ {A D P : Type 0} where
  -- The ops that a program still commits, and those whose cascades it still enqueues.
  abbrev pub commits : List (Task A D P) → List (Message A D P)
  commits [] = []
  commits (commit ms x ∷ p) = ms ++ commits p
  commits (enqueue ms q o ∷ p) = commits p
  commits (complete q ∷ p) = commits p

  abbrev pub enqueues : List (Task A D P) → List (Message A D P)
  enqueues [] = []
  enqueues (commit ms x ∷ p) = enqueues p
  enqueues (enqueue ms q o ∷ p) = ms ++ enqueues p
  enqueues (complete q ∷ p) = enqueues p

  abbrev pub members : List (Cascade A D P) → List (Message A D P)
  members [] = []
  members (c ∷ cs) = c.members ++ members cs

  -- Every op that was ever sent, the oldest first.
  abbrev pub line : System A D P → List (Message A D P)
  line s = s.written ++ (commits s.program ++ (s.pending ++ s.inbox))

  abbrev pub cascade_line : System A D P → List (Message A D P)
  cascade_line s =
      members s.cascaded
      ++ (members s.cascading
          ++ (members s.cascade_inbox ++ (enqueues s.program ++ (s.pending ++ s.inbox))))

  abbrev pub max_seq : List (Message A D P) → ℕ
  max_seq [] = 0
  max_seq ((q, op) ∷ ms) = max q (max_seq ms)

  pub max_seq-append :
      (xs ys : List (Message A D P)) → max_seq (xs ++ ys) ≡ max (max_seq xs) (max_seq ys)
  max_seq-append [] ys = omega arith
  max_seq-append ((q, op) ∷ xs) ys = omega (arith, max_seq-append xs ys)

  max_seq-taken :
      (before after : List (Message A D P)) (m : Message A D P)
      → max_seq (before ++ m ∷ after) ≡ max (max_seq (before ++ after)) (max_seq (m ∷ []))
  max_seq-taken before after m =
      omega (arith, max_seq-append before (m ∷ after), max_seq-append before after)

  -- The generations on their way: handed out by `fetch`, and moved into the line by `send`.
  abbrev pub Handed : System A D P → System A D P → List (Message A D P) → Type 0
  Handed s t more =
      ((max (max_seq t.sending) (max_seq more) ≡ max_seq s.sending) × (t.next_seq ≡ s.next_seq))
      ⊎ ((max_seq t.sending ≡ max (max_seq s.sending) s.next_seq)
          × (more ≡ [])
          × (t.next_seq ≡ s.next_seq + 1))

  commits-append : (p q : List (Task A D P)) → commits (p ++ q) ≡ commits p ++ commits q
  commits-append [] q = refl
  commits-append (commit ms x ∷ p) q = simp (commits-append p q, append_assoc)
  commits-append (enqueue ms s o ∷ p) q = commits-append p q
  commits-append (complete s ∷ p) q = commits-append p q

  enqueues-append : (p q : List (Task A D P)) → enqueues (p ++ q) ≡ enqueues p ++ enqueues q
  enqueues-append [] q = refl
  enqueues-append (commit ms x ∷ p) q = enqueues-append p q
  enqueues-append (enqueue ms s o ∷ p) q = simp (enqueues-append p q, append_assoc)
  enqueues-append (complete s ∷ p) q = enqueues-append p q

  members-append : (p q : List (Cascade A D P)) → members (p ++ q) ≡ members p ++ members q
  members-append [] q = refl
  members-append (c ∷ p) q = simp (members-append p q, append_assoc)

  merge-line :
      (m : Merge A D P) (p : List (Message A D P))
      → (merge m p).0.merged ++ (merge m p).1 ≡ m.merged ++ p
  unfolding merge
  merge-line m [] = refl
  merge-line m ((seq, flush ins rem) ∷ rest) =
      merge-line (add_flush m seq ins rem) rest ∙ append_assoc m.merged _ rest
  merge-line m (_ ∷ rest) = refl

  flush_tasks-commits :
      (m : Merge A D P) (l : List (Message A D P))
      → m.merged ≡ l
      → (commits (flush_tasks m l) ≡ l) × (enqueues (flush_tasks m l) ≡ l)
  unfolding flush_tasks
  flush_tasks-commits m [] e = (refl, refl)
  flush_tasks-commits m (x ∷ l) e = (simp append-nil e, simp append-nil e)

  op_tasks-line :
      (p : List (Message A D P))
      → (commits (op_tasks p).0 ++ (op_tasks p).1 ≡ p)
        × (enqueues (op_tasks p).0 ++ (op_tasks p).1 ≡ p)
  unfolding op_tasks
  op_tasks-line [] = (refl, refl)
  op_tasks-line (m ∷ p) = (refl, refl)

  pub plan-line :
      (p : List (Message A D P))
      → (commits (plan p).0 ++ (plan p).1 ≡ p) × (enqueues (plan p).0 ++ (plan p).1 ≡ p)
  unfolding plan
  plan-line p =
      let m = (merge no_merge p).0 in
      let rest = (merge no_merge p).1 in
      let f = flush_tasks-commits m m.merged refl in
      let o = op_tasks-line rest in
      (
        rw (commits-append (flush_tasks m m.merged) (op_tasks rest).0, f.0)
            (append_assoc m.merged _ _ ∙ ap (λ l. m.merged ++ l) o.0 ∙ merge-line no_merge p),
        rw (enqueues-append (flush_tasks m m.merged) (op_tasks rest).0, f.1)
            (append_assoc m.merged _ _ ∙ ap (λ l. m.merged ++ l) o.1 ∙ merge-line no_merge p),
      )

  joined : (x y p i : List (Message A D P)) → x ++ y ≡ p → x ++ (y ++ i) ≡ p ++ i
  joined x y p i h = sym (append_assoc x y i) ∙ ap (λ l. l ++ i) h

  -- A step leaves both lines as they are, or puts one op behind them.
  pub Step-line :
      (s t : System A D P)
      → Step s t
      → (more : List (Message A D P)) × (line t ≡ line s ++ more)
        × (cascade_line t ≡ cascade_line s ++ more)
        × Handed s t more
  Step-line s t (fetch op e) = (
    [],
    rw e (sym (append-nil _)),
    rw e (sym (append-nil _)),
    rw e (inr (omega (arith, max_seq-append s.sending ((s.next_seq, op) ∷ [])), refl, refl)),
  )
  Step-line s t (send before after m out _ e) = (
    m ∷ [],
    rw e (simp append_assoc),
    rw e (simp append_assoc),
    rw (e, out) (inl (omega (arith, max_seq-taken before after m), refl)),
  )
  Step-line s t (receive m rest empty full e) = (
    [],
    rw (e, full) (simp (append_assoc, append-nil)),
    rw (e, full) (simp (append_assoc, append-nil)),
    rw e (inl (omega arith, refl)),
  )
  Step-line s t (pass empty e) =
      let p = plan-line s.pending in
      (
        [],
        rw (e, empty, joined (commits (plan s.pending).0) (plan s.pending).1 s.pending s.inbox p.0)
            (sym (append-nil _)),
        rw (e, empty, joined (enqueues (plan s.pending).0) (plan s.pending).1 s.pending s.inbox p.1)
            (sym (append-nil _)),
        rw e (inl (omega arith, refl)),
      )
  Step-line s t (write ms x rest head e) = (
    [],
    rw (e, head) (simp (append_assoc, append-nil)),
    rw (e, head) (simp (append_assoc, append-nil)),
    rw e (inl (omega arith, refl)),
  )
  Step-line s t (forward ms q o rest head room e) = (
    [],
    rw (e, head) (simp (append_assoc, append-nil)),
    rw (e, head) (simp (members-append, append_assoc, append-nil)),
    rw e (inl (omega arith, refl)),
  )
  Step-line s t (store q rest head e) = (
    [],
    rw (e, head) (simp (append_assoc, append-nil)),
    rw (e, head) (simp (append_assoc, append-nil)),
    rw e (inl (omega arith, refl)),
  )
  Step-line s t (cascade_start c rest idle head e) = (
    [],
    rw e (simp (append_assoc, append-nil)),
    rw (e, idle, head) (simp (append_assoc, append-nil)),
    rw e (inl (omega arith, refl)),
  )
  Step-line s t (cascade_finish c busy e) = (
    [],
    rw e (simp (append_assoc, append-nil)),
    rw (e, busy) (simp (members-append, append_assoc, append-nil)),
    rw e (inl (omega arith, refl)),
  )

  -- Over a run the lines only grow.
  pub Run-line :
      (s t : System A D P)
      → Run s t
      → (more : List (Message A D P)) × (line t ≡ line s ++ more)
        × (cascade_line t ≡ cascade_line s ++ more)
  Run-line s s' here = ([], sym (append-nil _), sym (append-nil _))
  Run-line s u (next {t = t} r st) =
      let (xs, l, c) = Run-line s t r in
      let (ys, l', c', _) = Step-line t u st in
      (
        xs ++ ys,
        l' ∙ ap (λ k. k ++ ys) l ∙ append_assoc (line s) xs ys,
        c' ∙ ap (λ k. k ++ ys) c ∙ append_assoc (cascade_line s) xs ys,
      )
