-- ===== src/Nor/Batch.antt =====
-- `vmtreePutNorOverwriteBatch` of src/vmtree.c, and `vmtreePut` and `vmtreeFlush` with a log buffer
-- for OVERWRITE. Page buffer 0 has the leaf between records, also while it is not written. The
-- result of `malloc` in the sort is the argument `allocated`.
pub mod Leaf
pub mod One
use vmtree.Base.{
  ℕ, zero, suc, ◌+◌, ◌-◌, ◌*◌, ◌%◌, ◌^◌, Bool, true, false, ◌&&◌, not, Option, none, some, ltb,
  ◌==◌, if◌then◌else◌,
}
use vmtree.Records.{Record, uint32_compare, is_negative}
use vmtree.Sort.{in_memory_sort}
use vmtree.Mapping.{get_mapping}
use vmtree.Node.{Page, is_interior}
use vmtree.Storage.{Device}
use vmtree.Buffer.{read_page, read_page_buffer, overwrite_page, ensure_space}
use vmtree.Tree.{Tree, page_in, put_page, with_buffer, set_path}
use vmtree.Tree.Batch.{Log, Cursor, write_now, log_record}
use vmtree.Nor.{NorPage, NorGeometry}
use vmtree.Nor.Interior.{search_node_overwrite}
use vmtree.Nor.Leaf.{append_record}
use vmtree.Nor.Put.{split_leaf_nor, put_parents_nor}

-- `bufferedParentKey` after the child `c` of a node at level `l`: the smallest separator so far.
unfoldable pub parent_key_nor : NorPage → (c l parent_key : ℕ) → ℕ
parent_key_nor p c l parent_key =
    if l == 0
    then p.keys c
    else if is_negative (uint32_compare (p.keys c) parent_key)
    then p.keys c
    else parent_key

module _ {St : Type 0} (d : Device Page St) (g : NorGeometry) where
  -- The search for the leaf of a record, with the separator to its right.
  unfoldable pub batch_down_nor :
      (left : ℕ) → Tree St → (key l page parent_key : ℕ) → Option (Tree St × Option (ℕ × ℕ))
  unfolding with_buffer set_path search_node_overwrite parent_key_nor
  batch_down_nor zero t key l page parent_key = some (t, some (page, parent_key))
  batch_down_nor (suc left) t key l page parent_key =
      elim (read_page d t.buffer (t.active_path 0) page) [
        | none ↦ none
        | some (b, none) ↦ some (with_buffer t b, none)
        | some (b, some slot) ↦
            let p = b.buffers slot in
            let child = search_node_overwrite g (is_interior p && not (t.levels == 1)) p.nor key in
            let next = get_mapping t.table (p.nor.values child) in
            elim (next == 2 ^ 32 - 1) [
              | true ↦ some (with_buffer t b, none)
              | false ↦
                  batch_down_nor left (set_path (with_buffer t b) (l + 1) next) key (l + 1) next
                    (parent_key_nor p.nor child l parent_key)
            ]
      ]

  -- `if (mustSearch == 1)`: the leaf is found and read into page buffer 0.
  unfoldable pub locate_nor : Tree St → Cursor → (key : ℕ) → Option (Tree St × Option Cursor)
  unfolding batch_down_nor with_buffer
  locate_nor t c key = elim c.must_search [
    | false ↦ some (t, some c)
    | true ↦ elim (batch_down_nor (t.levels - 1) t key 0 (t.active_path 0) c.parent_key) [
      | none ↦ none
      | some (t1, none) ↦ some (t1, none)
      | some (t1, some (page, parent_key)) ↦
          let (b, found) = read_page_buffer d t1.buffer page 0 in
          elim found [
            | false ↦ some (with_buffer t1 b, none)
            | true ↦ some (
              with_buffer t1 b,
              some (record { page = page; must_search = false; parent_key = parent_key }),
            )
          ]
    ]
  ]

  -- The record appended to the leaf in page buffer 0, which is written if `write` says so, or the
  -- split of that leaf. The copy of the leaf is in page buffer 2.
  unfoldable pub batch_put_nor :
      Tree St → Cursor → (write search : Bool) → Record → Option (Tree St × Option Cursor)
  unfolding append_record split_leaf_nor put_parents_nor with_buffer page_in put_page
  batch_put_nor t c write search r = elim (append_record g (page_in t 0).nor r.key r.value) [
    | some n ↦
        let t1 = put_page t 0 (record (page_in t 0) { nor = n }) in
        let written = with_buffer t1 (overwrite_page d t1.buffer 0 c.page) in
        some (if write then written else t1, some (record c { must_search = search }))
    | none ↦ elim (split_leaf_nor d g t c.page r) [
      | none ↦ none
      | some (t', s) ↦ elim (put_parents_nor d g (t'.levels - 1) t' s) [
        | none ↦ none
        | some (t2, false) ↦ some (t2, none)
        | some (t2, true) ↦ some (t2, some (record c { must_search = true }))
      ]
    ]
  ]

  -- The loop over the sorted records from `idx` on, and whether the code returned 0.
  unfoldable pub batch_loop_nor :
      (left : ℕ) → Tree St → Log → (idx : ℕ) → Cursor → Option (Tree St × Bool)
  unfolding locate_nor batch_put_nor write_now
  batch_loop_nor zero t log idx c = some (t, true)
  batch_loop_nor (suc left) t log idx c =
      let r = log.records idx in
      elim (locate_nor t c r.key) [
        | none ↦ none
        | some (t1, none) ↦ some (t1, false)
        | some (t1, some c1) ↦
            let (write, search) = write_now log t1.levels idx c1.parent_key in
            elim (batch_put_nor t1 c1 write search r) [
              | none ↦ none
              | some (t2, none) ↦ some (t2, false)
              | some (t2, some c2) ↦ batch_loop_nor left t2 log (idx + 1) c2
            ]
      ]

  -- `vmtreePutNorOverwriteBatch`: the tree, the log as the sort leaves it, and whether the code
  -- returned 0.
  unfoldable pub put_nor_batch : (allocated : Bool) → Tree St → Log → Option (Tree St × Log × Bool)
  unfolding batch_loop_nor
  put_nor_batch allocated t log = elim (in_memory_sort allocated log.records log.num_records 1) [
    | none ↦ none
    | some (err, records) ↦
        let sorted = record log { records = records } in
        let start : Cursor = record {
          page = t.active_path 0;
          must_search = true;
          parent_key = 0;
        } in
        elim (batch_loop_nor log.num_records t sorted 0 start) [
          | none ↦ none
          | some (t', ok) ↦ some (t', sorted, ok)
        ]
  ]

  -- `vmtreePut` with a log buffer. The result of the batch is not looked at.
  unfoldable pub put_logged_nor :
      (fuel : ℕ) → (allocated : Bool) → Tree St → Log → Record → Option (Tree St × Log × Bool)
  unfolding put_nor_batch log_record with_buffer
  put_logged_nor fuel allocated t log r = elim (ltb log.num_records log.max_records) [
    | true ↦ some (t, log_record d log r, true)
    | false ↦ elim (ensure_space d fuel t.buffer t.table (log.max_records * 2 % 2 ^ 16)) [
      | none ↦ none
      | some (b, false) ↦ some (with_buffer t b, log, false)
      | some (b, true) ↦ elim (put_nor_batch allocated (with_buffer t b) log) [
        | none ↦ none
        | some (t', log', ok) ↦ some (t', log_record d (record log' { num_records = 0 }) r, true)
      ]
    ]
  ]

  -- `vmtreeFlush` with a log buffer
  unfoldable pub flush_nor : (allocated : Bool) → Tree St → Log → Option (Tree St × Log)
  unfolding put_nor_batch
  flush_nor allocated t log = elim (put_nor_batch allocated t log) [
    | none ↦ none
    | some (t', log', ok) ↦ some (t', record log' { num_records = 0 })
  ]
