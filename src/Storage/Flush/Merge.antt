-- ===== src/Storage/Flush/Merge.antt =====
-- backend/src/tasks/queue/writer.rs merges adjacent flushes into one call of
-- backend/src/tasks/batcher/flush_tree.rs.
use picasu.Prelude.{
  ℕ, ◌≡◌, refl, List, map, some, ap, ◌∙◌, Bool, none, some, [], ◌∷◌, arith, false, inl, inr,
  Option-cases,
}
use picasu.Model.Text.{Text}
use picasu.Model.Text.Table.{find, text_eq_refl}
use picasu.Model.Records.{AbstractData}
use picasu.Model.Assets.{hash}
use picasu.Tasks.Writer.Plan
use picasu.Tasks.Writer.Plan.{
  flush, Message, Transaction, sweep_albums, prune_root, no_write, Task, commit, enqueue, complete,
  plan, merge, flush_tasks, op_tasks,
}
use picasu.Storage.AssetStore.{Tables, get_asset_id_by_path}
use picasu.Storage.Flush.{
  Stores, path_of, flush_record, flush_inserts, flush_removes, flush_tables, flush_insert,
  flush_remove, mark, remove_tables, insert_tables, is_empty,
}
use picasu.Storage.Flush.Index.{IsIndexed, insert_tables-IsIndexed}
use picasu.Storage.Flush.Refines.{
  catalog, Catalog, IsCurrent, catalog-insert_tables, catalog-remove_tables,
  remove_tables-IsIndexed,
}
use picasu.Storage.Flush.Removal.{remove-by_id}

remove_tables-new :
    (on_disk : Text → Bool) (item : AbstractData) (fresh : Text) (t : Tables)
    → is_empty (path_of item) ≡ false
    → find fresh t.by_id ≡ none
    → find fresh (remove_tables on_disk item t).by_id ≡ none
unfolding remove_tables get_asset_id_by_path
remove_tables-new on_disk item fresh t named new =
    elim (Option-cases (find (path_of item) t.by_path)) [
      | inl missing ↦ rw (named, missing) new
      | inr (id, at) ↦
          rw (named, at) (ground (arith, remove-by_id id (path_of item) (hash item) t fresh))
    ]

reordered :
    (on_disk : Text → Bool) (now : ℕ) (fresh : Text) (gone item : AbstractData) (s : Stores)
    → path_of gone ≡ path_of item
    → IsIndexed s.tables
    → IsCurrent gone s.tables
    → find fresh s.tables.by_id ≡ none
    → (catalog
          (flush_tables on_disk now
            ((fresh, item) ∷ [])
            []
            (flush_tables on_disk now [] (gone ∷ []) s)).tables
          (path_of item)
        ≡ some (flush_record now fresh item))
      × (catalog (flush_tables on_disk now ((fresh, item) ∷ []) (gone ∷ []) s).tables (path_of item)
          ≡ none)
unfolding flush_tables flush_inserts flush_removes flush_insert flush_remove mark
reordered on_disk now fresh gone item s same v current new =
    let kept = remove_tables-IsIndexed on_disk gone s.tables v current in
    let absent = catalog-remove_tables on_disk gone s.tables v current.0 in
    let still = remove_tables-new on_disk gone fresh s.tables current.0 new in
    let apart =
      ap (λ (c : Catalog). c (path_of item))
        (catalog-insert_tables now fresh item (remove_tables on_disk gone s.tables) kept still) in
    let inserted = insert_tables-IsIndexed now fresh item s.tables v new in
    let merged =
      ap (λ (c : Catalog). c (path_of item))
        (catalog-remove_tables on_disk gone (insert_tables now fresh item s.tables) inserted
          current.0) in
    (
      ground (
        arith,
        apart,
        text_eq_refl (path_of item),
        ap (λ (c : Catalog). c (path_of item)) absent,
        same,
      ),
      merged ∙ rw same (ground (arith, text_eq_refl (path_of item))),
    )

-- The database after the writer's transactions. An insert comes with the id that it may draw; what a sweep
-- of albums and a pruning do to it is left open.
module _ {D P : Type 0} (on_disk : Text → Bool) (now : ℕ) (sweep : List D → Stores → Stores)
    (prune : P → Stores → Stores) where
  abbrev perform : Transaction (Text × AbstractData) D P → Stores → Stores
  perform (Plan.flush_tables inserts removes) s =
      flush_tables on_disk now inserts (map (λ r. r.1) removes) s
  perform (sweep_albums entries) s = sweep entries s
  perform (prune_root users_root) s = prune users_root s
  perform no_write s = s

  abbrev pub execute : List (Task (Text × AbstractData) D P) → Stores → Stores
  execute [] s = s
  execute (commit members x ∷ tasks) s = execute tasks (perform x s)
  execute (enqueue members seq op ∷ tasks) s = execute tasks s
  execute (complete seq ∷ tasks) s = execute tasks s

  -- The writer's merge loses an insert. When a flush that removes a path's record and a flush that inserts
  -- the path again come one after the other, each in a pass of its own, the path has the new record; when
  -- the writer finds both pending, its one pass leaves the path without a record and nothing pending. (The
  -- removed record is current and the drawn id is new.)
  pub merge_loses_insert :
      (q q' : ℕ) (fresh unused : Text) (gone item : AbstractData) (s : Stores)
      → path_of gone ≡ path_of item
      → IsIndexed s.tables
      → IsCurrent gone s.tables
      → find fresh s.tables.by_id ≡ none
      → let removal : Message (Text × AbstractData) D P = (q, flush [] ((unused, gone) ∷ [])) in
        let insertion : Message (Text × AbstractData) D P = (q', flush ((fresh, item) ∷ []) []) in
        ((catalog
              (execute (plan (insertion ∷ [])).0 (execute (plan (removal ∷ [])).0 s)).tables
              (path_of item)
            ≡ some (flush_record now fresh item))
          × (catalog (execute (plan (removal ∷ insertion ∷ [])).0 s).tables (path_of item) ≡ none)
          × ((plan (removal ∷ insertion ∷ [])).1 ≡ []))
  unfolding plan merge flush_tasks op_tasks
  merge_loses_insert q q' fresh unused gone item s same v current new =
      let (apart, merged) = reordered on_disk now fresh gone item s same v current new in
      (apart, merged, refl)
