-- ===== src/Tree/Batch/One.antt =====
-- `vmtreePutBatch` of a log of one record against `vmtreePutRecord`.
use vmtree.Base.{
  ℕ, zero, suc, ◌+◌, ◌-◌, ◌≡◌, refl, Bool, true, false, Option, none, some, Memory, arith, ltb,
  ◌==◌, if◌then◌else◌,
}
use vmtree.Records.{Record}
use vmtree.Sort.{in_memory_sort, quick_sort, quick_sort_helper}
use vmtree.Node.{Page, get_count}
use vmtree.Node.Search.{search_node}
use vmtree.Storage.{Device}
use vmtree.Buffer.{Buffer, read_page, read_page_buffer}
use vmtree.Tree.{Tree, page_in, with_buffer, set_path, get_child_page_id}
use vmtree.Tree.Put.{
  step_down, find_leaf, put_at_leaf, put_record, put_in_leaf, split_leaf, put_parents,
}
use vmtree.Tree.Batch.{
  Log, Cursor, batch_down, locate, batch_put, write_now, batch_loop, put_batch, parent_key_at,
}

-- The page, without the separator.
abbrev pub forget_key : {T : Type 0} → Option (T × Option (ℕ × ℕ)) → Option (T × Option ℕ)
forget_key none = none
forget_key (some (t, none)) = some (t, none)
forget_key (some (t, some (page, k))) = some (t, some page)

-- The tree and the result, without the log.
abbrev pub forget_log : {T : Type 0} → Option (T × Log × Bool) → Option (T × Bool)
forget_log none = none
forget_log (some (t, log, ok)) = some (t, ok)

-- What the loop does after the last record.
abbrev pub last : {T : Type 0} → Option (T × Option Cursor) → Option (T × Bool)
last none = none
last (some (t, none)) = some (t, false)
last (some (t, some c)) = some (t, true)

pub sort_one : (m : Memory Record) → in_memory_sort true m 1 1 ≡ some (0, m)
unfolding in_memory_sort quick_sort quick_sort_helper
sort_one m = refl

module _ {St : Type 0} (d : Device Page St) where
  find_leaf-batch_down :
      (left : ℕ) (t : Tree St) (key l page k : ℕ)
      → find_leaf d left t key l page ≡ forget_key (batch_down d left t key l page k)
  unfolding find_leaf batch_down step_down
  find_leaf-batch_down zero t key l page k = refl
  find_leaf-batch_down (suc left) t key l page k =
      read (read_page d t.buffer (t.active_path 0) page) refl (find_leaf-batch_down left)
    where
      Goal : Type 0
      Goal =
          find_leaf d (suc left) t key l page ≡ forget_key (batch_down d (suc left) t key l page k)

      Rest : Type 0
      Rest =
          (t' : Tree St) (key' l' page' k' : ℕ)
          → find_leaf d left t' key' l' page' ≡ forget_key (batch_down d left t' key' l' page' k')

      child :
          (b : Buffer St) (slot c : ℕ) (x : Option ℕ)
          → read_page d t.buffer (t.active_path 0) page ≡ some (b, some slot)
          → search_node t.geometry t.levels (b.buffers slot) key true ≡ some (some c)
          → get_child_page_id t.table (b.buffers slot) c ≡ x
          → Rest
          → Goal
      child b slot c none e f g rest = rw (e, find_leaf, step_down, batch_down, f, g) refl
      child b slot c (some next) e f g rest =
          rw (e, find_leaf, step_down, batch_down, f, g)
            (rest (set_path (with_buffer t b) (l + 1) next) key (l + 1) next
              (parent_key_at (b.buffers slot) c l k))

      search :
          (b : Buffer St) (slot : ℕ) (x : Option (Option ℕ))
          → read_page d t.buffer (t.active_path 0) page ≡ some (b, some slot)
          → search_node t.geometry t.levels (b.buffers slot) key true ≡ x
          → Rest
          → Goal
      search b slot none e f rest = rw (e, find_leaf, step_down, batch_down, f) refl
      search b slot (some none) e f rest = rw (e, find_leaf, step_down, batch_down, f) refl
      search b slot (some (some c)) e f rest =
          child b slot c (get_child_page_id t.table (b.buffers slot) c) e f refl rest

      read :
          (x : Option (Buffer St × Option ℕ))
          → read_page d t.buffer (t.active_path 0) page ≡ x
          → Rest
          → Goal
      read none e rest = rw (e, find_leaf, step_down, batch_down) refl
      read (some (b, none)) e rest = rw (e, find_leaf, step_down, batch_down) refl
      read (some (b, some slot)) e rest =
          search b slot (search_node t.geometry t.levels (b.buffers slot) key true) e refl rest

  -- `put_at_leaf` once the leaf is in page buffer 0.
  abbrev at_leaf : Tree St → (page : ℕ) → Record → Option (Tree St × Bool)
  at_leaf t page r =
      let count = get_count (page_in t 0) in
      let searched = search_node t.geometry t.levels (page_in t 0) r.key true in
      elim (if count == 0 then some none else searched) [
        | none ↦ none
        | some place ↦ elim (ltb count t.geometry.max_records) [
          | true ↦ elim (put_in_leaf d t page place r) [ none ↦ none | some t' ↦ some (t', true) ]
          | false ↦ elim (split_leaf d t page place r) [
            | none ↦ none
            | some (t', s) ↦ put_parents d (t'.levels - 1) t' s
          ]
        ]
      ]

  batch_put-at_leaf :
      (t : Tree St) (c : Cursor) (search : Bool) (r : Record)
      → last (batch_put d t c true search r) ≡ at_leaf t c.page r
  unfolding batch_put
  batch_put-at_leaf t c search r = ground arith

  put_at_leaf-at_leaf :
      (t : Tree St) (page : ℕ) (r : Record)
      → put_at_leaf d t page r ≡ (
          if (read_page_buffer d t.buffer page 0).1
          then at_leaf
              (record (with_buffer t (read_page_buffer d t.buffer page 0).0) {
                node_split_id = page;
              })
              page
              r
          else some (with_buffer t (read_page_buffer d t.buffer page 0).0, false))
  unfolding put_at_leaf
  put_at_leaf-at_leaf t page r = ground arith

  -- The loop for one record, by what the search for its leaf gives.
  loop_one :
      (t : Tree St) (log : Log) (x : Option (Tree St × Option (ℕ × ℕ)))
      → log.num_records ≡ 1
      → batch_down d (t.levels - 1) t (log.records 0).key 0 (t.active_path 0) 0 ≡ x
      → find_leaf d (t.levels - 1) t (log.records 0).key 0 (t.active_path 0) ≡ forget_key x
      → batch_loop d 1 t log 0
          (record { page = t.active_path 0; must_search = true; parent_key = 0 })
        ≡ put_record d t (log.records 0)
  unfolding batch_loop locate put_record write_now
  loop_one t log none one e f = rw (e, f, batch_loop, put_record) refl
  loop_one t log (some (t1, none)) one e f = rw (e, f, batch_loop, put_record) refl
  loop_one t log (some (t1, some (page, k))) one e f =
      let r = log.records 0 in
      let t2 = record (with_buffer t1 (read_page_buffer d t1.buffer page 0).0) {
        node_split_id = page;
      } in
      let c : Cursor = record { page = page; must_search = false; parent_key = k } in
      rw (f, put_record, put_at_leaf-at_leaf t1 page r)
        (ground (arith, e, one, batch_put-at_leaf t2 c false r))

  -- `vmtreePutBatch` of a log of one record does what `vmtreePutRecord` does with that record: the
  -- same tree, and the same result. (The sort gets its buffer.)
  pub put_batch-one :
      (t : Tree St) (m : Memory Record) (max : ℕ)
      → forget_log (put_batch d true t (record { records = m; num_records = 1; max_records = max }))
        ≡ put_record d t (m 0)
  unfolding put_batch
  put_batch-one t m max =
      let log : Log = record { records = m; num_records = 1; max_records = max } in
      let found = find_leaf-batch_down (t.levels - 1) t (m 0).key 0 (t.active_path 0) 0 in
      let one =
        loop_one t log (batch_down d (t.levels - 1) t (m 0).key 0 (t.active_path 0) 0) refl refl
          found in
      rw (sort_one m, put_batch) (ground (arith, one))
