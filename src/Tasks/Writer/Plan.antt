-- ===== src/Tasks/Writer/Plan.antt =====
-- backend/src/tasks/queue/writer.rs: one pass of `writer_loop` over the ops that it has pending.
use picasu.Prelude.{ℕ, max, List, [], ◌∷◌, ◌++◌}

-- `A` is an asset record; `D` is a directory with its album id; `P` is a path.
module _ (A D P : Type 0) where
  pub data WriteOp : Type 0 where
    flush : List A → List A → WriteOp
    update_tree expire_check barrier_mark : WriteOp
    sweep_dir_albums : List D → WriteOp
    prune_users_root : P → WriteOp

  -- What one op does to the database.
  pub data Transaction : Type 0 where
    flush_tables : List A → List A → Transaction
    sweep_albums : List D → Transaction
    prune_root : P → Transaction
    no_write : Transaction

pub data CascadeOp : Type 0 where
  update_tree_chain expire_round noop : CascadeOp

-- An op with its generation.
abbrev pub Message : Type 0 → Type 0 → Type 0 → Type 0
Message A D P = ℕ × WriteOp A D P

-- What the writer task does next. `members` are the ops that a step is for: they are not in the
-- program, and say which op is where.
pub data Task (A D P : Type 0) : Type 0 where
  commit : List (Message A D P) → Transaction A D P → Task A D P
  enqueue : List (Message A D P) → ℕ → CascadeOp → Task A D P
  complete : ℕ → Task A D P

-- The local variables of the merge, with the ops merged so far (`merged` is their number).
pub record Merge (A D P : Type 0) : Type 0 where
  pub inserts : List A
  pub removes : List A
  pub flush_seq : ℕ
  pub merged : List (Message A D P)

module _ {A D P : Type 0} where
  unfoldable pub handle_op : WriteOp A D P → Transaction A D P × CascadeOp
  handle_op (flush inserts removes) = (flush_tables inserts removes, update_tree_chain)
  handle_op update_tree = (no_write, update_tree_chain)
  handle_op expire_check = (no_write, expire_round)
  handle_op (sweep_dir_albums entries) = (sweep_albums entries, noop)
  handle_op (prune_users_root users_root) = (prune_root users_root, noop)
  handle_op barrier_mark = (no_write, noop)

  abbrev pub no_merge : Merge A D P
  no_merge = record { inserts = []; removes = []; flush_seq = 0; merged = [] }

  abbrev pub add_flush : Merge A D P → ℕ → List A → List A → Merge A D P
  add_flush m seq ins rem = record {
    inserts = m.inserts ++ ins;
    removes = m.removes ++ rem;
    flush_seq = max m.flush_seq seq;
    merged = m.merged ++ (seq, flush ins rem) ∷ [];
  }

  -- `while matches!(pending.front(), Some((_, WriteOp::Flush { .. })))`
  unfoldable pub merge : Merge A D P → List (Message A D P) → Merge A D P × List (Message A D P)
  merge m ((seq, flush ins rem) ∷ rest) = merge (add_flush m seq ins rem) rest
  merge m rest = (m, rest)

  -- `if merged > 0`
  unfoldable pub flush_tasks : Merge A D P → List (Message A D P) → List (Task A D P)
  flush_tasks m [] = []
  flush_tasks m (_ ∷ _) =
      commit m.merged (flush_tables m.inserts m.removes)
      ∷ enqueue m.merged m.flush_seq update_tree_chain
      ∷ complete m.flush_seq
      ∷ []

  -- `if let Some((seq, op)) = pending.pop_front()`
  unfoldable pub op_tasks : List (Message A D P) → List (Task A D P) × List (Message A D P)
  op_tasks [] = ([], [])
  op_tasks ((seq, op) ∷ rest) =
      let (transaction, cascade) = handle_op op in
      (
        commit ((seq, op) ∷ []) transaction
            ∷ enqueue ((seq, op) ∷ []) seq cascade
            ∷ complete seq
            ∷ [],
        rest,
      )

  -- One pass of the loop: the tasks, and what is left pending.
  unfoldable pub plan : List (Message A D P) → List (Task A D P) × List (Message A D P)
  plan pending =
      let (m, rest) = merge no_merge pending in
      let (tasks, left) = op_tasks rest in (flush_tasks m m.merged ++ tasks, left)
