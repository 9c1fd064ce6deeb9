-- ===== src/Tasks/Writer/Generations.antt =====
-- Every generation that was handed out is below the next one, and belongs to one op that is on its
-- way into the channel or in the line.
use picasu.Prelude.{ℕ, ◌+◌, ◌≡◌, ap, max, arith}
use picasu.Tasks.Writer.System.{System, Run, here, next}
use picasu.Tasks.Writer.Line.{line, max_seq, max_seq-append, Step-line}

module _ {A D P : Type 0} where
  -- The largest generation that was handed out.
  abbrev pub handed_out : System A D P → ℕ
  handed_out s = max (max_seq s.sending) (max_seq (line s))

  pub Run-handed_out :
      (s t : System A D P) → Run s t → handed_out s + 1 ≡ s.next_seq → handed_out t + 1 ≡ t.next_seq
  Run-handed_out s s' here h = h
  Run-handed_out s u (next {t = t} r st) h =
      let (more, l, c, handed) = Step-line t u st in
      let before = Run-handed_out s t r h in
      ground (arith, ap max_seq l, max_seq-append (line t) more)
