-- ===== src/Tree/Mapped.antt =====
-- src/vmtree.c: pointers of a node brought up to date with the mapping table, the previous page of a
-- node, and the writes on the path to the root when the table has no room for a mapping.
use vmtree.Base.{
  ℕ, zero, suc, ◌+◌, ◌%◌, ◌^◌, Bool, true, false, ◌||◌, not, Option, none, some, Memory, update,
  leb, ◌==◌, if◌then◌else◌,
}
use vmtree.Mapping.{Mappings, get_mapping, add_mapping, delete_mapping, empty_mapping}
use vmtree.Node.{Page, get_count, is_interior, prev_id_constant, set_prev}
use vmtree.Storage.{Device}
use vmtree.Buffer.{read_page_buffer, set_free, write_page}
use vmtree.Tree.{Tree, page_in, put_page, with_buffer, set_path}

-- `savedMappingPrev` and `savedMappingCurr`
pub record Saved : Type 0 where
  pub prev : ℕ
  pub curr : ℕ

-- Where a pointer leads now: the saved mapping comes before the table.
unfoldable pub resolve : Saved → Mappings → ℕ → ℕ
resolve s table child = if child == s.prev then s.curr else get_mapping table child

-- The mapping table, the pointers of a page, and the number of them that changed.
pub record Progress : Type 0 where
  pub table : Mappings
  pub pointers : Memory ℕ
  pub num : ℕ

-- The body of the loop of `vmtreeUpdatePointers`, and the loop.
unfoldable pub update_one : Saved → (i : ℕ) → Progress → Progress
unfolding resolve
update_one s i x =
    let child = x.pointers i in
    let new = resolve s x.table child in
    if new == child then x else record {
      table = delete_mapping x.table child;
      pointers = update x.pointers i new;
      num = x.num + 1;
    }

unfoldable pub update_loop : ℕ → Saved → (i : ℕ) → Progress → Progress
unfolding update_one
update_loop zero s i x = x
update_loop (suc left) s i x = update_loop left s (i + 1) (update_one s i x)

module _ {St : Type 0} (d : Device Page St) where
  -- `vmtreeUpdatePointers` of the page in a page buffer, for the pointers from 0 to `last`, as every
  -- call has it.
  unfoldable pub update_pointers : Tree St → (slot last : ℕ) → Tree St × ℕ
  unfolding update_loop page_in put_page
  update_pointers t slot last =
      let p = page_in t slot in
      let saved : Saved = record { prev = t.saved_mapping_prev; curr = t.saved_mapping_curr } in
      let start : Progress = record { table = t.table; pointers = p.pointers; num = 0 } in
      let x = update_loop (suc last) saved 0 start in
      (put_page (record t { table = x.table }) slot (record p { pointers = x.pointers }), x.num)

  -- `vmtreeUpdatePrev` of the page in a page buffer: the previous page it has after that.
  unfoldable pub update_prev : Tree St → (slot curr : ℕ) → Tree St × ℕ
  unfolding page_in put_page
  update_prev t slot curr =
      let p = page_in t slot in
      if leb prev_id_constant p.prev || not (get_mapping t.table p.prev == curr)
      then (put_page t slot (set_prev p curr), curr)
      else (t, p.prev)

  -- The body of the loop of `vmtreeFixMappings` for the node above, in page buffer 0, up to its
  -- write: the new page of the node and its previous page.
  unfoldable pub rewrite_node : Tree St → (prev curr page : ℕ) → Option (Tree St × (ℕ × ℕ))
  unfolding update_pointers update_prev with_buffer page_in
  rewrite_node t prev curr page =
      let t1 = record t { saved_mapping_prev = prev; saved_mapping_curr = curr } in
      let (t2, prev') = update_prev t1 0 page in
      let t3 = with_buffer t2 (set_free d t2.buffer page) in
      let (t4, num) = update_pointers t3 0 (get_count (page_in t3 0)) in
      let t5 = record t4 { saved_mapping_prev = empty_mapping } in
      elim (write_page d t5.buffer t5.table 0) [
        | none ↦ none
        | some (b, curr') ↦ some (with_buffer t5 b, (prev', curr'))
      ]

  -- `vmtreeFixMappings`, where `left` is `l + 1`. The test of the loop adds the mapping.
  unfoldable pub fix_mappings : (left : ℕ) → Tree St → (prev curr : ℕ) → Option (Tree St)
  unfolding rewrite_node with_buffer set_path
  fix_mappings zero t prev curr = some (record t { table = (add_mapping t.table prev curr).0 })
  fix_mappings (suc l) t prev curr =
      let (table, added) = add_mapping t.table prev curr in
      let t1 = record t { table = table } in
      elim added [
        | true ↦ some t1
        | false ↦
            let t2 = record t1 { num_mapping_write = (t.num_mapping_write + 1) % 2 ^ 32 } in
            let (b, found) = read_page_buffer d t2.buffer (t2.active_path l) 0 in
            elim found [
              | false ↦ some (with_buffer t2 b)
              | true ↦ elim (rewrite_node (with_buffer t2 b) prev curr (t2.active_path l)) [
                | none ↦ none
                | some (t3, (prev', curr')) ↦ elim (l == 0) [
                  | true ↦ some (set_path t3 0 curr')
                  | false ↦ fix_mappings l t3 prev' curr'
                ]
              ]
            ]
      ]

  -- `vmtreeMovePage`, told by the page buffer: the page in `slot` went from `prev` to `curr`.
  unfoldable pub move_page : Tree St → (prev curr slot : ℕ) → Tree St × Bool
  unfolding update_pointers update_prev page_in set_path
  move_page t prev curr slot =
      let p = page_in t slot in
      let t1 = if is_interior p then (update_pointers t slot (get_count p)).0 else t in
      if t1.active_path 0 == prev
      then (set_path t1 0 curr, true)
      else (let (t2, prev') = update_prev t1 slot prev in
          let (table, added) = add_mapping t2.table prev' curr in
          (record t2 { table = table }, added))

  -- The part of `vmtreeClearMappings` below the children: the node in `slot` is updated, and
  -- written if that changed a pointer.
  unfoldable pub clear_node : Tree St → (page slot : ℕ) → Option (Tree St)
  unfolding update_pointers update_prev with_buffer page_in
  clear_node t page slot =
      let (t1, num) = update_pointers t slot (get_count (page_in t slot)) in
      if num == 0
      then some t1
      else (let (t2, prev) = update_prev t1 slot page in
          elim (write_page d t2.buffer t2.table slot) [
            | none ↦ none
            | some (b, curr) ↦
                let t3 = with_buffer t2 b in
                some (
                  if prev == t3.active_path 0
                  then t3
                  else record t3 { table = (add_mapping t3.table prev curr).0 })
          ])
