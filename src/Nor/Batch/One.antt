-- ===== src/Nor/Batch/One.antt =====
-- `vmtreePutNorOverwriteBatch` of a log of one record against `vmtreePutNorOverwrite`.
use vmtree.Base.{
  ℕ, zero, suc, ◌+◌, ◌-◌, ◌^◌, ◌≡◌, refl, ◌∙◌, Bool, true, false, ◌&&◌, not, Option, none, some,
  Memory, arith, ◌==◌,
}
use vmtree.Records.{Record}
use vmtree.Mapping.{get_mapping}
use vmtree.Node.{Page, is_interior}
use vmtree.Storage.{Device}
use vmtree.Buffer.{Buffer, read_page, read_page_buffer, overwrite_page}
use vmtree.Tree.{Tree, page_in, put_page, with_buffer, set_path}
use vmtree.Tree.Batch.{Log, Cursor, write_now}
use vmtree.Tree.Batch.One.{forget_key, forget_log, last, sort_one}
use vmtree.Nor.{NorGeometry}
use vmtree.Nor.Interior.{search_node_overwrite}
use vmtree.Nor.Leaf.{append_record}
use vmtree.Nor.Put.{
  step_down_nor, find_leaf_nor, put_at_leaf_nor, put_nor_overwrite, split_leaf_nor, put_parents_nor,
}
use vmtree.Nor.Batch.{
  batch_down_nor, locate_nor, batch_put_nor, batch_loop_nor, put_nor_batch, parent_key_nor,
}

module _ {St : Type 0} (d : Device Page St) (g : NorGeometry) where
  find_leaf_nor-batch_down_nor :
      (left : ℕ) (t : Tree St) (key l page k : ℕ)
      → find_leaf_nor d g left t key l page ≡ forget_key (batch_down_nor d g left t key l page k)
  unfolding find_leaf_nor batch_down_nor step_down_nor
  find_leaf_nor-batch_down_nor zero t key l page k = refl
  find_leaf_nor-batch_down_nor (suc left) t key l page k =
      read (read_page d t.buffer (t.active_path 0) page) refl (find_leaf_nor-batch_down_nor left)
    where
      Goal : Type 0
      Goal =
          find_leaf_nor d g (suc left) t key l page
          ≡ forget_key (batch_down_nor d g (suc left) t key l page k)

      Rest : Type 0
      Rest =
          (t' : Tree St) (key' l' page' k' : ℕ)
          → find_leaf_nor d g left t' key' l' page'
            ≡ forget_key (batch_down_nor d g left t' key' l' page' k')

      child_of : Page → ℕ
      child_of p = search_node_overwrite g (is_interior p && not (t.levels == 1)) p.nor key

      next_of : Page → ℕ
      next_of p = get_mapping t.table (p.nor.values (child_of p))

      child :
          (b : Buffer St) (slot : ℕ) (x : Bool)
          → read_page d t.buffer (t.active_path 0) page ≡ some (b, some slot)
          → (next_of (b.buffers slot) == 2 ^ 32 - 1) ≡ x
          → Rest
          → Goal
      child b slot true e f rest = rw (e, find_leaf_nor, step_down_nor, batch_down_nor, f) refl
      child b slot false e f rest =
          let p = b.buffers slot in
          let next = next_of p in
          rw (e, find_leaf_nor, step_down_nor, batch_down_nor, f)
            (rest (set_path (with_buffer t b) (l + 1) next) key (l + 1) next
              (parent_key_nor p.nor (child_of p) l k))

      read :
          (x : Option (Buffer St × Option ℕ))
          → read_page d t.buffer (t.active_path 0) page ≡ x
          → Rest
          → Goal
      read none e rest = rw (e, find_leaf_nor, step_down_nor, batch_down_nor) refl
      read (some (b, none)) e rest = rw (e, find_leaf_nor, step_down_nor, batch_down_nor) refl
      read (some (b, some slot)) e rest =
          child b slot (next_of (b.buffers slot) == 2 ^ 32 - 1) e refl rest

  -- `put_at_leaf_nor` once the leaf is in page buffer 0.
  abbrev at_leaf : Tree St → (page : ℕ) → Record → Option (Tree St × Bool)
  at_leaf t page r = elim (append_record g (page_in t 0).nor r.key r.value) [
    | some n ↦
        let t2 = put_page t 0 (record (page_in t 0) { nor = n }) in
        some (with_buffer t2 (overwrite_page d t2.buffer 0 page), true)
    | none ↦ elim (split_leaf_nor d g t page r) [
      | none ↦ none
      | some (t', s) ↦ put_parents_nor d g (t'.levels - 1) t' s
    ]
  ]

  batch_put_nor-at_leaf :
      (t : Tree St) (c : Cursor) (search : Bool) (r : Record)
      → last (batch_put_nor d g t c true search r) ≡ at_leaf t c.page r
  unfolding batch_put_nor
  batch_put_nor-at_leaf t c search r = ground arith

  put_at_leaf_nor-at_leaf :
      (t : Tree St) (page : ℕ) (r : Record)
      → (read_page_buffer d t.buffer page 0).1 ≡ true
      → put_at_leaf_nor d g t page r
        ≡ at_leaf (with_buffer t (read_page_buffer d t.buffer page 0).0) page r
  unfolding put_at_leaf_nor
  put_at_leaf_nor-at_leaf t page r read = ground (arith, read)

  -- The loop for one record, by what the search for its leaf gives.
  loop_one :
      (t : Tree St) (log : Log) (x : Option (Tree St × Option (ℕ × ℕ)))
      → log.num_records ≡ 1
      → batch_down_nor d g (t.levels - 1) t (log.records 0).key 0 (t.active_path 0) 0 ≡ x
      → find_leaf_nor d g (t.levels - 1) t (log.records 0).key 0 (t.active_path 0) ≡ forget_key x
      → ((t1 : Tree St) (page : ℕ)
          → forget_key x ≡ some (t1, some page)
          → (read_page_buffer d t1.buffer page 0).1 ≡ true)
      → batch_loop_nor d g 1 t log 0
          (record { page = t.active_path 0; must_search = true; parent_key = 0 })
        ≡ put_nor_overwrite d g t (log.records 0)
  unfolding batch_loop_nor locate_nor put_nor_overwrite write_now
  loop_one t log none one e f readable = rw (e, f, batch_loop_nor, put_nor_overwrite) refl
  loop_one t log (some (t1, none)) one e f readable =
      rw (e, f, batch_loop_nor, put_nor_overwrite) refl
  loop_one t log (some (t1, some (page, k))) one e f readable =
      let r = log.records 0 in
      let t2 = with_buffer t1 (read_page_buffer d t1.buffer page 0).0 in
      let c : Cursor = record { page = page; must_search = false; parent_key = k } in
      let read = readable t1 page refl in
      rw (f, put_nor_overwrite, put_at_leaf_nor-at_leaf t1 page r read)
        (ground (arith, e, one, read, batch_put_nor-at_leaf t2 c false r))

  -- `vmtreePutNorOverwriteBatch` of a log of one record does what `vmtreePutNorOverwrite` does with
  -- that record: the same tree, and the same result. (The sort gets its buffer, and the leaf to
  -- which the walk leads, if it does, can be read: else `vmtreePutNorOverwrite` prints the tree.)
  pub put_nor_batch-one :
      (t : Tree St) (m : Memory Record) (max : ℕ)
      → ((t1 : Tree St) (page : ℕ)
          → find_leaf_nor d g (t.levels - 1) t (m 0).key 0 (t.active_path 0) ≡ some (t1, some page)
          → (read_page_buffer d t1.buffer page 0).1 ≡ true)
      → forget_log
          (put_nor_batch d g true t (record { records = m; num_records = 1; max_records = max }))
        ≡ put_nor_overwrite d g t (m 0)
  unfolding put_nor_batch
  put_nor_batch-one t m max readable =
      let log : Log = record { records = m; num_records = 1; max_records = max } in
      let found = find_leaf_nor-batch_down_nor (t.levels - 1) t (m 0).key 0 (t.active_path 0) 0 in
      let one =
        loop_one t log (batch_down_nor d g (t.levels - 1) t (m 0).key 0 (t.active_path 0) 0) refl
          refl found (λ t1 page e. readable t1 page (found ∙ e)) in
      rw (sort_one m, put_nor_batch) (ground (arith, one))
