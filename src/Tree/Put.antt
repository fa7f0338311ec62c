-- ===== src/Tree/Put.antt =====
-- `vmtreePutRecord` of src/vmtree.c, and `vmtreePut` for a tree without a log buffer.
-- The result is the tree and whether the code returned 0. Page buffer 0 has the page that changes.
use vmtree.Base.{
  ℕ, zero, suc, ◌+◌, ◌-◌, ◌%◌, ◌^◌, Bool, true, false, Option, none, some, ltb, ◌==◌, if◌then◌else◌,
}
use vmtree.Records.{Record}
use vmtree.Node.{Page, get_count, set_prev, prev_id_constant}
use vmtree.Node.Search.{Place, search_node}
use vmtree.Node.Leaf
use vmtree.Node.Interior
use vmtree.Node.Interior.{Separator, insert_child, left_header, new_root}
use vmtree.Storage.{Device}
use vmtree.Buffer.{
  read_page, read_page_buffer, set_free, write_page, overwrite_page, init_buffer_page, ensure_space,
}
use vmtree.Tree.{
  moving, in_place, Tree, page_in, put_page, with_buffer, set_path, get_child_page_id,
}
use vmtree.Tree.Mapped.{update_pointers, update_prev, fix_mappings}

module _ {St : Type 0} (d : Device Page St) where
  -- One level of a walk down: the number of the child and its page. The second search that the code
  -- makes when the first number is out of range gives that number again. A search that finds no
  -- place in an inner node, which an interior node excludes, is `none`, too.
  unfoldable pub step_down :
      Tree St → (page key : ℕ) → (range : Bool) → Option (Tree St × Option (ℕ × ℕ))
  unfolding with_buffer get_child_page_id
  step_down t page key range = elim (read_page d t.buffer (t.active_path 0) page) [
    | none ↦ none
    | some (b, none) ↦ some (with_buffer t b, none)
    | some (b, some slot) ↦ elim (search_node t.geometry t.levels (b.buffers slot) key range) [
      | none ↦ none
      | some none ↦ none
      | some (some child) ↦ elim (get_child_page_id t.table (b.buffers slot) child) [
        | none ↦ some (with_buffer t b, none)
        | some next ↦ some (with_buffer t b, some (child, next))
      ]
    ]
  ]

  -- The walk of `vmtreePutRecord` to the leaf, which it keeps in the active path: `left` more
  -- levels from `page` at level `l` on.
  unfoldable pub find_leaf : (left : ℕ) → Tree St → (key l page : ℕ) → Option (Tree St × Option ℕ)
  unfolding step_down set_path
  find_leaf zero t key l page = some (t, some page)
  find_leaf (suc left) t key l page = elim (step_down t page key true) [
    | none ↦ none
    | some (t', none) ↦ some (t', none)
    | some (t', some (child, next)) ↦ find_leaf left (set_path t' (l + 1) next) key (l + 1) next
  ]

  -- A leaf with space: the record goes into page buffer 0, which has `page`, and is written.
  unfoldable pub put_in_leaf : Tree St → (page : ℕ) → Place → Record → Option (Tree St)
  unfolding Leaf.insert_record page_in put_page with_buffer set_path update_prev fix_mappings
  put_in_leaf t page place r =
      let t1 = put_page t 0 (Leaf.insert_record (page_in t 0) place r) in
      elim t1.algorithm [
        | in_place ↦ some (with_buffer t1 (overwrite_page d t1.buffer 0 page))
        | moving ↦
            let t2 = with_buffer t1 (set_free d t1.buffer page) in
            elim (t2.levels == 1) [
              | true ↦ elim (write_page d t2.buffer t2.table 0) [
                | none ↦ none
                | some (b, next) ↦ some (set_path (with_buffer t2 b) 0 next)
              ]
              | false ↦
                  let (t3, prev) = update_prev d t2 0 page in
                  elim (write_page d t3.buffer t3.table 0) [
                    | none ↦ none
                    | some (b, next) ↦ fix_mappings d (t3.levels - 1) (with_buffer t3 b) prev next
                  ]
            ]
      ]

  -- A full leaf: both halves are written, and give the separator for the parent.
  unfoldable pub split_leaf : Tree St → (page : ℕ) → Place → Record → Option (Tree St × Separator)
  unfolding Leaf.split_left Leaf.split_right Leaf.promoted_key page_in put_page with_buffer
  split_leaf t page place r =
      let p = set_prev (page_in t 0) prev_id_constant in
      let t1 = record t { num_nodes = (t.num_nodes + 1) % 2 ^ 32 } in
      let t2 = with_buffer t1 (set_free d t1.buffer page) in
      let t3 = put_page t2 0 (Leaf.split_left p place r) in
      elim (write_page d t3.buffer t3.table 0) [
        | none ↦ none
        | some (b, left) ↦
            let t4 = with_buffer t3 b in
            let t5 = put_page t4 0 (Leaf.split_right p (page_in t4 0) place r) in
            elim (write_page d t5.buffer t5.table 0) [
              | none ↦ none
              | some (b', right) ↦ some (
                with_buffer t5 b',
                record { key = Leaf.promoted_key p place r; left = left; right = right },
              )
            ]
      ]

  -- An interior node with space, at level `l`: it takes the separator and is written.
  unfoldable pub put_in_node : Tree St → (l page : ℕ) → Separator → Option (Tree St)
  unfolding insert_child page_in put_page with_buffer set_path update_pointers update_prev
      fix_mappings
  put_in_node t l page s = elim (search_node t.geometry t.levels (page_in t 0) s.key true) [
    | none ↦ none
    | some none ↦ none
    | some (some c) ↦
        let (t1, num) = update_pointers d t 0 (get_count (page_in t 0)) in
        let t2 = put_page t1 0 (insert_child (page_in t1 0) c s) in
        let (t3, prev) = update_prev d t2 0 page in
        elim t3.algorithm [
          | in_place ↦ some (with_buffer t3 (overwrite_page d t3.buffer 0 page))
          | moving ↦ elim (write_page d t3.buffer t3.table 0) [
            | none ↦ none
            | some (b, next) ↦ elim (l == 0) [
              | true ↦ some (set_path (with_buffer t3 b) 0 next)
              | false ↦ fix_mappings d l (with_buffer t3 b) prev next
            ]
          ]
        ]
  ]

  -- A full interior node: both halves are written, and give the separator for the node above.
  unfoldable pub split_node : Tree St → Separator → Option (Tree St × Separator)
  unfolding left_header Interior.split_left Interior.split_right Interior.promoted_key page_in
      put_page with_buffer update_pointers
  split_node t s =
      let p = set_prev (page_in t 0) prev_id_constant in
      let count = get_count p in
      let t1 = record t { num_nodes = (t.num_nodes + 1) % 2 ^ 32 } in
      let searched = search_node t.geometry t.levels p s.key true in
      elim (if count == 0 then some none else searched) [
        | none ↦ none
        | some none ↦ none
        | some (some c) ↦
            let (t2, num) = update_pointers d (put_page t1 0 (left_header p c)) 0 count in
            let q = page_in t2 0 in
            let t3 = put_page t2 0 (Interior.split_left q count c s) in
            elim (write_page d t3.buffer t3.table 0) [
              | none ↦ none
              | some (b, left) ↦
                  let t4 = with_buffer t3 b in
                  let t5 = put_page t4 0 (Interior.split_right q (page_in t4 0) count c s) in
                  elim (write_page d t5.buffer t5.table 0) [
                    | none ↦ none
                    | some (b', right) ↦ some (
                      with_buffer t5 b',
                      record {
                        key = Interior.promoted_key q count c s;
                        left = left;
                        right = right;
                      },
                    )
                  ]
            ]
      ]

  -- The new root, when the old one was split.
  unfoldable pub put_root : Tree St → Separator → Option (Tree St)
  unfolding new_root page_in put_page with_buffer set_path
  put_root t s =
      let t1 = with_buffer t (init_buffer_page d t.buffer 0) in
      let t2 = record (put_page t1 0 (new_root (page_in t1 0) s)) {
        num_nodes = (t.num_nodes + 1) % 2 ^ 32;
      } in
      elim (write_page d t2.buffer t2.table 0) [
        | none ↦ none
        | some (b, root) ↦
            some (record (set_path (with_buffer t2 b) 0 root) { levels = (t2.levels + 1) % 2 ^ 8 })
      ]

  -- The loop over the nodes above a split, `left` of them.
  unfoldable pub put_parents : (left : ℕ) → Tree St → Separator → Option (Tree St × Bool)
  unfolding put_in_node split_node put_root with_buffer page_in
  put_parents zero t s = elim (put_root t s) [ none ↦ none | some t' ↦ some (t', true) ]
  put_parents (suc l) t s =
      let parent = t.active_path l in
      let t1 = record t { node_split_id = parent } in
      let t2 = with_buffer t1 (set_free d t1.buffer parent) in
      let (b, found) = read_page_buffer d t2.buffer parent 0 in
      let t3 = with_buffer t2 b in
      elim found [
        | false ↦ some (t3, false)
        | true ↦ elim (ltb (get_count (page_in t3 0)) t3.geometry.max_interior) [
          | true ↦ elim (put_in_node t3 l parent s) [ none ↦ none | some t' ↦ some (t', true) ]
          | false ↦ elim (split_node t3 s) [ none ↦ none | some (t', s') ↦ put_parents l t' s' ]
        ]
      ]

  -- `vmtreePutRecord` from the leaf on.
  unfoldable pub put_at_leaf : Tree St → (page : ℕ) → Record → Option (Tree St × Bool)
  unfolding put_in_leaf split_leaf put_parents with_buffer page_in
  put_at_leaf t page r =
      let (b, found) = read_page_buffer d t.buffer page 0 in
      let t1 = with_buffer t b in
      let t2 = record t1 { node_split_id = page } in
      let count = get_count (page_in t2 0) in
      let searched = search_node t2.geometry t2.levels (page_in t2 0) r.key true in
      elim found [
        | false ↦ some (t1, false)
        | true ↦ elim (if count == 0 then some none else searched) [
          | none ↦ none
          | some place ↦ elim (ltb count t2.geometry.max_records) [
            | true ↦ elim (put_in_leaf t2 page place r) [ none ↦ none | some t' ↦ some (t', true) ]
            | false ↦ elim (split_leaf t2 page place r) [
              | none ↦ none
              | some (t', s) ↦ put_parents (t'.levels - 1) t' s
            ]
          ]
        ]
      ]

  -- `vmtreePutRecord`
  unfoldable pub put_record : Tree St → Record → Option (Tree St × Bool)
  unfolding find_leaf put_at_leaf
  put_record t r = elim (find_leaf (t.levels - 1) t r.key 0 (t.active_path 0)) [
    | none ↦ none
    | some (t', none) ↦ some (t', false)
    | some (t', some page) ↦ put_at_leaf t' page r
  ]

  -- `vmtreePut`, where there is no log buffer: the capacity first, on the fuel given.
  unfoldable pub put : (fuel : ℕ) → Tree St → Record → Option (Tree St × Bool)
  unfolding put_record with_buffer
  put fuel t r = elim (ensure_space d fuel t.buffer t.table 8) [
    | none ↦ none
    | some (b, false) ↦ some (with_buffer t b, false)
    | some (b, true) ↦ put_record (with_buffer t b) r
  ]
