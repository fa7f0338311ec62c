-- ===== src/Tree/Batch.antt =====
-- The log buffer of src/vmtree.c: `vmtreePutBatch`, and `vmtreePut` and `vmtreeFlush` with it.
-- Page buffer 0 has the leaf between records, also while it is not written. The result of
-- `malloc` in the sort is the argument `allocated`.
pub mod One
use vmtree.Base.{
  ℕ, zero, suc, ◌+◌, ◌-◌, ◌*◌, ◌%◌, ◌^◌, Bool, true, false, not, Option, none, some, Memory, update,
  ltb, ◌==◌, if◌then◌else◌,
}
use Prim.Native.Nat.{Ordering}
use vmtree.Records.{Record, uint32_compare, is_negative}
use vmtree.Sort.{in_memory_sort}
use vmtree.Node.{Page, get_count}
use vmtree.Node.Search.{Place, search_node}
use vmtree.Node.Leaf.{insert_record}
use vmtree.Storage.{Device}
use vmtree.Buffer.{Buffer, read_page, read_page_buffer, ensure_space}
use vmtree.Tree.{Tree, page_in, put_page, with_buffer, set_path, get_child_page_id}
use vmtree.Tree.Put.{put_in_leaf, split_leaf, put_parents, put}

-- `logBuffer` with `numLogRecords` and `maxLogRecords`
pub record Log : Type 0 where
  pub records : Memory Record
  pub num_records : ℕ
  pub max_records : ℕ

-- The local variables of `vmtreePutBatch` that live from one record to the next: `nextId`,
-- `mustSearch` and `bufferedParentKey`, which the first search sets.
pub record Cursor : Type 0 where
  pub page : ℕ
  pub must_search : Bool
  pub parent_key : ℕ

-- The smallest separator to the right of the path so far, at child `c` of a node at level `l`.
unfoldable pub parent_key_at : Page → (c l parent_key : ℕ) → ℕ
parent_key_at p c l parent_key =
    if c == get_count p
    then (if l == 0 then 2 ^ 32 - 1 else parent_key)
    else if l == 0
    then p.keys c
    else if is_negative (uint32_compare (p.keys c) parent_key)
    then p.keys c
    else parent_key

-- `mustWrite` for the record `idx`, and `mustSearch` for the one after it.
unfoldable pub write_now : Log → (levels idx parent_key : ℕ) → Bool × Bool
write_now log levels idx parent_key =
    let more = is_negative (uint32_compare (log.records (idx + 1)).key parent_key) in
    if idx == log.num_records - 1
    then (true, false)
    else if levels == 1
    then (false, false)
    else (not more, not more)

module _ {St : Type 0} (d : Device Page St) where
  -- The search for the leaf of a record, with the separator to its right.
  unfoldable pub batch_down :
      (left : ℕ) → Tree St → (key l page parent_key : ℕ) → Option (Tree St × Option (ℕ × ℕ))
  unfolding with_buffer set_path get_child_page_id parent_key_at
  batch_down zero t key l page parent_key = some (t, some (page, parent_key))
  batch_down (suc left) t key l page parent_key =
      elim (read_page d t.buffer (t.active_path 0) page) [
        | none ↦ none
        | some (b, none) ↦ some (with_buffer t b, none)
        | some (b, some slot) ↦ elim (search_node t.geometry t.levels (b.buffers slot) key true) [
          | none ↦ none
          | some none ↦ none
          | some (some c) ↦ elim (get_child_page_id t.table (b.buffers slot) c) [
            | none ↦ some (with_buffer t b, none)
            | some next ↦
                batch_down left (set_path (with_buffer t b) (l + 1) next) key (l + 1) next
                  (parent_key_at (b.buffers slot) c l parent_key)
          ]
        ]
      ]

  -- `if (mustSearch == 1)`: the leaf is found and read into page buffer 0.
  unfoldable pub locate : Tree St → Cursor → (key : ℕ) → Option (Tree St × Option Cursor)
  unfolding batch_down with_buffer
  locate t c key = elim c.must_search [
    | false ↦ some (t, some c)
    | true ↦ elim (batch_down (t.levels - 1) t key 0 (t.active_path 0) c.parent_key) [
      | none ↦ none
      | some (t1, none) ↦ some (t1, none)
      | some (t1, some (page, parent_key)) ↦
          let (b, found) = read_page_buffer d t1.buffer page 0 in
          elim found [
            | false ↦ some (with_buffer t1 b, none)
            | true ↦ some (
              with_buffer t1 b,
              some (record { page = page; must_search = false; parent_key = parent_key }),
            )
          ]
    ]
  ]

  -- The record put into the leaf in page buffer 0, which is written if `write` says so, or split.
  unfoldable pub batch_put :
      Tree St → Cursor → (write search : Bool) → Record → Option (Tree St × Option Cursor)
  unfolding put_in_leaf split_leaf put_parents page_in put_page insert_record
  batch_put t c write search r =
      let count = get_count (page_in t 0) in
      let searched = search_node t.geometry t.levels (page_in t 0) r.key true in
      elim (if count == 0 then some none else searched) [
        | none ↦ none
        | some place ↦ elim (ltb count t.geometry.max_records) [
          | true ↦
              elim (if write
                then put_in_leaf d t c.page place r
                else some (put_page t 0 (insert_record (page_in t 0) place r))) [
                  | none ↦ none
                  | some t' ↦ some (t', some (record c { must_search = search }))
                ]
          | false ↦ elim (split_leaf d t c.page place r) [
            | none ↦ none
            | some (t', s) ↦ elim (put_parents d (t'.levels - 1) t' s) [
              | none ↦ none
              | some (t2, false) ↦ some (t2, none)
              | some (t2, true) ↦ some (t2, some (record c { must_search = true }))
            ]
          ]
        ]
      ]

  -- The loop over the sorted records from `idx` on, and whether the code returned 0.
  unfoldable pub batch_loop :
      (left : ℕ) → Tree St → Log → (idx : ℕ) → Cursor → Option (Tree St × Bool)
  unfolding locate batch_put write_now
  batch_loop zero t log idx c = some (t, true)
  batch_loop (suc left) t log idx c =
      let r = log.records idx in
      elim (locate t c r.key) [
        | none ↦ none
        | some (t1, none) ↦ some (t1, false)
        | some (t1, some c1) ↦
            let (write, search) = write_now log t1.levels idx c1.parent_key in
            let t2 = record t1 { node_split_id = c1.page } in
            elim (batch_put t2 c1 write search r) [
              | none ↦ none
              | some (t3, none) ↦ some (t3, false)
              | some (t3, some c3) ↦ batch_loop left t3 log (idx + 1) c3
            ]
      ]

  -- `vmtreePutBatch`: the tree, the log as the sort leaves it, and whether the code returned 0.
  unfoldable pub put_batch : (allocated : Bool) → Tree St → Log → Option (Tree St × Log × Bool)
  unfolding batch_loop
  put_batch allocated t log = elim (in_memory_sort allocated log.records log.num_records 1) [
    | none ↦ none
    | some (err, records) ↦
        let sorted = record log { records = records } in
        let start : Cursor = record {
          page = t.active_path 0;
          must_search = true;
          parent_key = 0;
        } in
        elim (batch_loop log.num_records t sorted 0 start) [
          | none ↦ none
          | some (t', ok) ↦ some (t', sorted, ok)
        ]
  ]

  -- The end of `vmtreePut` with a log buffer: the record is copied into it.
  unfoldable pub log_record : Log → Record → Log
  log_record log r = record log {
    records = update log.records log.num_records r;
    num_records = (log.num_records + 1) % 2 ^ 16;
  }

  -- `vmtreePut` with a log buffer. The result of `vmtreePutBatch` is not looked at.
  unfoldable pub put_logged :
      (fuel : ℕ) → (allocated : Bool) → Tree St → Log → Record → Option (Tree St × Log × Bool)
  unfolding put_batch log_record with_buffer
  put_logged fuel allocated t log r = elim (ltb log.num_records log.max_records) [
    | true ↦ some (t, log_record log r, true)
    | false ↦ elim (ensure_space d fuel t.buffer t.table (log.max_records * 2 % 2 ^ 16)) [
      | none ↦ none
      | some (b, false) ↦ some (with_buffer t b, log, false)
      | some (b, true) ↦ elim (put_batch allocated (with_buffer t b) log) [
        | none ↦ none
        | some (t', log', ok) ↦ some (t', log_record (record log' { num_records = 0 }) r, true)
      ]
    ]
  ]

  -- `vmtreeFlush` with a log buffer
  unfoldable pub flush : (allocated : Bool) → Tree St → Log → Option (Tree St × Log)
  unfolding put_batch
  flush allocated t log = elim (put_batch allocated t log) [
    | none ↦ none
    | some (t', log', ok) ↦ some (t', record log' { num_records = 0 })
  ]
