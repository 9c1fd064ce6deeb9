-- ===== src/Tasks/Writer/Tests.antt =====
-- Runs of the writer on concrete ops, with asset records, directories and paths as numbers.
use picasu.Prelude.{ℕ, ◌+◌, ◌<◌, ◌≡◌, refl, List, [], ◌∷◌, ◌++◌, arith}
use picasu.Tasks.Writer.Plan.{
  flush, barrier_mark, Message, flush_tables, no_write, update_tree_chain, noop,
}
use picasu.Tasks.Writer.System.{System, Run, fetch, send, here, next, initial}
use picasu.Tasks.Writer.Line.{line, members}
use picasu.Tasks.Writer.Overtaking.{
  with_inbox, done_with, handle_first, plan_barrier, plan_flush, barrier_overtakes,
}
use picasu.Tasks.Writer.Barrier.{IsIdle, Run-trans, barrier_covers, barrier_returns}

abbrev start : System ℕ ℕ ℕ
start = initial

abbrev insert_seven : Message ℕ ℕ ℕ
insert_seven = (1, flush (7 ∷ []) [])

abbrev marker : Message ℕ ℕ ℕ
marker = (2, barrier_mark)

-- The flush is in the channel, and a barrier is about to be called.
abbrev at_call : System ℕ ℕ ℕ
at_call = record (with_inbox start (insert_seven ∷ [])) { next_seq = 2 }

abbrev marked : System ℕ ℕ ℕ
marked = record start { next_seq = 3 }

abbrev flushed : System ℕ ℕ ℕ
flushed = done_with marked insert_seven (flush_tables (7 ∷ []) []) 1 update_tree_chain

abbrev finished : System ℕ ℕ ℕ
finished = with_inbox (done_with flushed marker no_write 2 noop) []

to_call : Run start at_call
to_call =
    next (next here (fetch (flush (7 ∷ []) []) refl))
      (send [] [] insert_seven refl (omega arith) refl)

to_finished : Run at_call finished
to_finished =
    Run-trans _ (with_inbox marked (insert_seven ∷ marker ∷ [])) _
      (next (next here (fetch barrier_mark refl)) (send [] [] marker refl (omega arith) refl))
      (Run-trans _ (with_inbox flushed (marker ∷ [])) _
        (handle_first marked insert_seven (marker ∷ []) (flush_tables (7 ∷ []) []) 1
          update_tree_chain (plan_flush 1 (7 ∷ []) []))
        (handle_first flushed marker [] no_write 2 noop (plan_barrier 2)))

start-IsIdle : IsIdle start
start-IsIdle = record {
  sending = refl;
  inbox = refl;
  pending = refl;
  program = refl;
  cascade_inbox = refl;
  cascading = refl;
}

finished-IsIdle : IsIdle finished
finished-IsIdle = record {
  sending = refl;
  inbox = refl;
  pending = refl;
  program = refl;
  cascade_inbox = refl;
  cascading = refl;
}

barrier_covers_example :
    ((more : List (Message ℕ ℕ ℕ)) × (finished.written ≡ line at_call ++ more))
    × ((more : List (Message ℕ ℕ ℕ)) × (members finished.cascaded ≡ line at_call ++ more))
barrier_covers_example =
    barrier_covers at_call finished finished to_call to_finished here (omega arith) (omega arith)

barrier_returns_example :
    (finished.completed + 1 ≡ finished.next_seq)
    × (finished.cascade_completed + 1 ≡ finished.next_seq)
barrier_returns_example =
    barrier_returns finished (Run-trans start at_call finished to_call to_finished) finished-IsIdle
      (omega arith, (omega arith, tt))

barrier_overtakes_example :
    (t : System ℕ ℕ ℕ) × Run start t
    × IsIdle t
    × (t.written ≡ (2, barrier_mark) ∷ (1, flush (7 ∷ []) []) ∷ [])
    × (t.completed < 2)
    × (t.cascade_completed < 2)
barrier_overtakes_example = barrier_overtakes start (7 ∷ []) [] start-IsIdle
