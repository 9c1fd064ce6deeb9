-- ===== src/Tasks/Writer/Barrier.antt =====
-- What a barrier promises: `barrier` submits a marker, and waits until both watermarks have reached
-- a generation that is at least the marker's.
use mathlib.Core.List.{append-nil}
use mathlib.Core.List.{tail-eq_of_cons-eq}
use picasu.Prelude.{
  ℕ, ◌+◌, ◌≤◌, ◌<◌, ◌≡◌, ◌⊎◌, inl, inr, refl, sym, ap, ◌∙◌, length, List, [], ◌∷◌, ◌++◌, arith,
}
use picasu.Tasks.Writer.Plan.{Message}
use picasu.Tasks.Writer.System.{System, Run, here, next, initial}
use picasu.Tasks.Writer.Line.{
  line, cascade_line, members, commits, enqueues, max_seq, max_seq-append, Run-line,
}
use picasu.Tasks.Writer.Programs.{Last}
use picasu.Tasks.Writer.Watermark.{IsSound, Run-IsSound, initial-IsSound}
use picasu.Tasks.Writer.Generations.{handed_out, Run-handed_out}

module _ {ℓ} {X : Type ℓ} where
  -- Of two beginnings of one list the one begins the other.
  beginnings :
      (xs ys zs ws : List X)
      → xs ++ ys ≡ zs ++ ws
      → ((more : List X) × (xs ≡ zs ++ more)) ⊎ ((more : List X) × (zs ≡ xs ++ more))
  beginnings xs ys [] ws e = inl (xs, refl)
  beginnings [] ys (z ∷ zs) ws e = inr (z ∷ zs, refl)
  beginnings (x ∷ xs) ys (z ∷ zs) ws e =
      ground (arith, beginnings xs ys zs ws (tail-eq_of_cons-eq e))

module _ {A D P : Type 0} where
  -- Nothing is on its way, and both tasks wait for work.
  pub record IsIdle (s : System A D P) : Type 0 where
    pub sending : s.sending ≡ []
    pub inbox : s.inbox ≡ []
    pub pending : s.pending ≡ []
    pub program : s.program ≡ []
    pub cascade_inbox : s.cascade_inbox ≡ []
    pub cascading : s.cascading ≡ []

  reached-IsSound : (s : System A D P) → Run initial s → IsSound s
  reached-IsSound s r = Run-IsSound initial s r initial-IsSound

  reached-handed_out : (s : System A D P) → Run initial s → handed_out s + 1 ≡ s.next_seq
  reached-handed_out s r = Run-handed_out initial s r (omega arith)

  lines-agree : (s : System A D P) → Run initial s → cascade_line s ≡ line s
  lines-agree s r = let (more, l, c) = Run-line initial s r in c ∙ sym l

  -- A watermark at `b` or more stands behind a list whose generations are all below `b`.
  passed :
      (done rest old more : List (Message A D P)) (b mark : ℕ)
      → done ++ rest ≡ old ++ more
      → max_seq old < b
      → b ≤ mark
      → mark ≤ max_seq done
      → (more' : List (Message A D P)) × (done ≡ old ++ more')
  passed done rest old more b mark e below reached within = elim (beginnings done rest old more e) [
    | inl p ↦ p
    | inr (xs, p) ↦ absurd (omega (arith, ap max_seq p, max_seq-append done xs))
  ]

  pub Run-trans : (s t u : System A D P) → Run s t → Run t u → Run s u
  Run-trans s t t' r here = r
  Run-trans s t u r (next {t = v} q st) = next (Run-trans s t v r q) st

  -- Let a barrier be called in the state `s`, so that its marker's generation is `s.next_seq` or more.
  -- When it has found the writer's watermark there, in `t`, every op that was in the system at the
  -- call is written, in order; and when it then has found the cascade's watermark there, in `u`, the
  -- cascades of all those ops are run, in order. Ops may overtake one another on their way in.
  pub barrier_covers :
      (s t u : System A D P)
      → Run initial s
      → Run s t
      → Run t u
      → s.next_seq ≤ t.completed
      → s.next_seq ≤ u.cascade_completed
      → ((more : List (Message A D P)) × (t.written ≡ line s ++ more))
        × ((more : List (Message A D P)) × (members u.cascaded ≡ line s ++ more))
  barrier_covers s t u r rt ru written cascaded =
      let below = reached-handed_out s r in
      let (more, l, _) = Run-line s t rt in
      let (more', _, c) = Run-line s u (Run-trans s t u rt ru) in
      let vt = Run-IsSound s t rt (reached-IsSound s r) in
      let vu = Run-IsSound t u ru vt in
      (
        passed t.written (commits t.program ++ (t.pending ++ t.inbox)) (line s) more s.next_seq
            t.completed l (omega arith) written vt.completed,
        passed (members u.cascaded)
            (members u.cascading
              ++ (members u.cascade_inbox ++ (enqueues u.program ++ (u.pending ++ u.inbox))))
            (line s) more' s.next_seq u.cascade_completed
            (c ∙ ap (λ k. k ++ more') (lines-agree s r)) (omega arith) cascaded
            vu.cascade_completed,
      )

  abbrev pub Ascending : ℕ → List (Message A D P) → Type 0
  Ascending q [] = Unit
  Ascending q ((p, op) ∷ ms) = (q < p) × Ascending p ms

  Ascending-lt :
      (q : ℕ) (ms : List (Message A D P)) → 1 ≤ length ms → Ascending q ms → q < max_seq ms
  Ascending-lt q [] h a = absurd (omega arith)
  Ascending-lt q ((p, op) ∷ ms) h a = omega (arith, a.0)

  max_seq-behind :
      (q : ℕ) (before batch : List (Message A D P))
      → 1 ≤ length batch
      → Ascending q (before ++ batch)
      → (max_seq (before ++ batch) ≡ max_seq batch) × (q < max_seq batch)
  max_seq-behind q [] batch h a = (refl, Ascending-lt q batch h a)
  max_seq-behind q ((p, op) ∷ before) batch h a =
      let (same, below) = max_seq-behind p before batch h a.1 in (omega arith, omega (arith, a.0))

  Last-max_seq : (w : List (Message A D P)) (c : ℕ) → Ascending 0 w → Last w c → c ≡ max_seq w
  Last-max_seq w c a (inl (empty, zero)) = rw empty zero
  Last-max_seq w c a (inr (before, batch, e, full, last)) =
      let a' : Ascending 0 (before ++ batch) = rw e at a in
      rw e (last ∙ sym (max_seq-behind 0 before batch full a').0)

  idle-line :
      (s : System A D P) → IsIdle s → (line s ≡ s.written) × (cascade_line s ≡ members s.cascaded)
  idle-line s i = (
    rw (i.program, i.pending, i.inbox) (simp append-nil),
    rw (i.cascading, i.cascade_inbox, i.program, i.pending, i.inbox) (simp append-nil),
  )

  -- If the ops came into the channel in the order of their generations, then, when the system is idle,
  -- both watermarks stand at the last generation that was handed out, so no barrier is left waiting.
  pub barrier_returns :
      (s : System A D P)
      → Run initial s
      → IsIdle s
      → Ascending 0 (line s)
      → (s.completed + 1 ≡ s.next_seq) × (s.cascade_completed + 1 ≡ s.next_seq)
  barrier_returns s r idle asc =
      let v = reached-IsSound s r in
      let (w, c) = idle-line s idle in
      let top = reached-handed_out s r in
      let done : Ascending 0 s.written = rw w at asc in
      let run : Ascending 0 (members s.cascaded) = rw (sym (lines-agree s r) ∙ c) at asc in
      let last : Last s.written s.completed = rw idle.program at v.last in
      let written = Last-max_seq s.written s.completed done last in
      let cascaded = Last-max_seq (members s.cascaded) s.cascade_completed run v.cascade_last in
      let none_sending = ap max_seq idle.sending in
      (omega (arith, ap max_seq w), omega (arith, ap max_seq (sym c ∙ lines-agree s r)))
