-- ===== src/Tasks/Writer/System.antt =====
-- backend/src/tasks/queue/writer.rs: submitters, the writer task and the cascade task as one system
-- that moves in steps. The channels are first in, first out and bounded.
use picasu.Prelude.{ℕ, ◌+◌, ◌<◌, ◌≡◌, List, [], ◌∷◌, ◌++◌, length}
use picasu.Tasks.Writer.Plan.{
  WriteOp, Message, Transaction, CascadeOp, Task, commit, enqueue, complete, plan,
}

abbrev pub writer_capacity : ℕ
writer_capacity = 1024

abbrev pub cascade_capacity : ℕ
cascade_capacity = 1024

-- A message of the cascade channel, with the ops that it follows.
pub record Cascade (A D P : Type 0) : Type 0 where
  pub members : List (Message A D P)
  pub seq : ℕ
  pub op : CascadeOp

pub record System (A D P : Type 0) : Type 0 where
  -- `NEXT_SEQ`, `COMPLETED_SEQ`, `CASCADE_COMPLETED_SEQ`
  pub next_seq : ℕ
  pub completed : ℕ
  pub cascade_completed : ℕ
  -- ops that have a generation and are on their way into the channel
  pub sending : List (Message A D P)
  pub inbox : List (Message A D P)
  -- the writer task: its deque, and what it does before it reads the deque again
  pub pending : List (Message A D P)
  pub program : List (Task A D P)
  pub cascade_inbox : List (Cascade A D P)
  -- the cascade that is running
  pub cascading : List (Cascade A D P)
  -- what was done: the ops written, the transactions, and the cascades run
  pub written : List (Message A D P)
  pub transactions : List (Transaction A D P)
  pub cascaded : List (Cascade A D P)

module _ {A D P : Type 0} where
  -- `NEXT_SEQ.fetch_add(1)` and `tx.send` are two steps of `submit`: other tasks run between them.
  pub data Step (s t : System A D P) : Type 0 where
    fetch :
        (op : WriteOp A D P)
        → t ≡ record s { next_seq = s.next_seq + 1; sending = s.sending ++ (s.next_seq, op) ∷ [] }
        → Step s t
    send :
        (before after : List (Message A D P)) (m : Message A D P)
        → s.sending ≡ before ++ m ∷ after
        → length s.inbox < writer_capacity
        → t ≡ record s { sending = before ++ after; inbox = s.inbox ++ m ∷ [] }
        → Step s t
    -- `recv` and `try_recv`
    receive :
        (m : Message A D P) (rest : List (Message A D P))
        → s.program ≡ []
        → s.inbox ≡ m ∷ rest
        → t ≡ record s { inbox = rest; pending = s.pending ++ m ∷ [] }
        → Step s t
    pass :
        s.program ≡ []
        → t ≡ record s { program = (plan s.pending).0; pending = (plan s.pending).1 }
        → Step s t
    write :
        (members : List (Message A D P)) (x : Transaction A D P) (rest : List (Task A D P))
        → s.program ≡ commit members x ∷ rest
        → t ≡ record s {
          program = rest;
          written = s.written ++ members;
          transactions = s.transactions ++ x ∷ [];
        }
        → Step s t
    -- `enqueue_cascade`, which waits while the channel is full
    forward :
        (members : List (Message A D P)) (seq : ℕ) (op : CascadeOp) (rest : List (Task A D P))
        → s.program ≡ enqueue members seq op ∷ rest
        → length s.cascade_inbox < cascade_capacity
        → t ≡ record s {
          program = rest;
          cascade_inbox = s.cascade_inbox ++ record { members = members; seq = seq; op = op } ∷ [];
        }
        → Step s t
    -- `complete_seq`: a plain store
    store :
        (seq : ℕ) (rest : List (Task A D P))
        → s.program ≡ complete seq ∷ rest
        → t ≡ record s { program = rest; completed = seq }
        → Step s t
    cascade_start :
        (c : Cascade A D P) (rest : List (Cascade A D P))
        → s.cascading ≡ []
        → s.cascade_inbox ≡ c ∷ rest
        → t ≡ record s { cascade_inbox = rest; cascading = c ∷ [] }
        → Step s t
    cascade_finish :
        (c : Cascade A D P)
        → s.cascading ≡ c ∷ []
        → t
          ≡ record s { cascading = []; cascaded = s.cascaded ++ c ∷ []; cascade_completed = c.seq }
        → Step s t

  pub data Run (s : System A D P) : System A D P → Type 0 where
    here : Run s s
    next : {t u : System A D P} → Run s t → Step t u → Run s u

-- The state at start-up.
abbrev pub initial : {A D P : Type 0} → System A D P
initial = record {
  next_seq = 1;
  completed = 0;
  cascade_completed = 0;
  sending = [];
  inbox = [];
  pending = [];
  program = [];
  cascade_inbox = [];
  cascading = [];
  written = [];
  transactions = [];
  cascaded = [];
}
