-- ===== src/Nor/Put.antt =====
-- `vmtreePutNorOverwrite` of src/vmtree.c, which puts a record into a tree of OVERWRITE. The result
-- is the tree and whether the code returned 0. Page buffer 0 has the page that changes, and page
-- buffer 2 its copy in a split.
pub mod Append
pub mod Parent
use vmtree.Base.{
  ℕ, zero, suc, ◌+◌, ◌-◌, ◌%◌, ◌^◌, Bool, true, false, ◌&&◌, not, Option, none, some, update, ◌==◌,
}
use vmtree.Records.{Record}
use vmtree.Mapping.{get_mapping}
use vmtree.Node.{Page, is_interior, set_prev, prev_id_constant}
use vmtree.Node.Interior.{Separator}
use vmtree.Storage.{Device}
use vmtree.Buffer.{
  read_page, read_page_buffer, set_free, write_page, overwrite_page, init_buffer_page, ensure_space,
}
use vmtree.Tree.{Tree, page_in, put_page, with_buffer, set_path}
use vmtree.Nor.{NorPage, NorGeometry, sort_block, sort_interior_block, set_count_bit_interior}
use vmtree.Nor.Interior.{search_node_overwrite, insert_interior}
use vmtree.Nor.Interior.Split
use vmtree.Nor.Leaf
use vmtree.Nor.Print.{print_tree}
use vmtree.Nor.Leaf.{append_record}

module _ {St : Type 0} (d : Device Page St) (g : NorGeometry) where
  -- One level of the walk down. A search of OVERWRITE always gives a number of a location, so that
  -- it is not repeated; `getChildPageId` is -1 only where the mapped number is.
  unfoldable pub step_down_nor : Tree St → (page key : ℕ) → Option (Tree St × Option ℕ)
  unfolding with_buffer search_node_overwrite
  step_down_nor t page key = elim (read_page d t.buffer (t.active_path 0) page) [
    | none ↦ none
    | some (b, none) ↦ some (with_buffer t b, none)
    | some (b, some slot) ↦
        let p = b.buffers slot in
        let child = search_node_overwrite g (is_interior p && not (t.levels == 1)) p.nor key in
        let next = get_mapping t.table (p.nor.values child) in
        elim (next == 2 ^ 32 - 1) [
          | true ↦ some (with_buffer t b, none)
          | false ↦ some (with_buffer t b, some next)
        ]
  ]

  -- The walk to the leaf: `left` more levels from `page` at level `l` on.
  unfoldable pub find_leaf_nor :
      (left : ℕ) → Tree St → (key l page : ℕ) → Option (Tree St × Option ℕ)
  unfolding step_down_nor set_path
  find_leaf_nor zero t key l page = some (t, some page)
  find_leaf_nor (suc left) t key l page = elim (step_down_nor t page key) [
    | none ↦ none
    | some (t', none) ↦ some (t', none)
    | some (t', some next) ↦ find_leaf_nor left (set_path t' (l + 1) next) key (l + 1) next
  ]

  -- The two halves of a split are written: the first from page buffer 0, the second from the copy
  -- `p` in page buffer 2.
  unfoldable pub write_halves :
      Tree St → (p : Page) → (first second : NorPage) → (key : ℕ) → Option (Tree St × Separator)
  unfolding page_in put_page with_buffer
  write_halves t p first second key =
      let t1 = with_buffer t (init_buffer_page d t.buffer 2) in
      let t2 = put_page (put_page t1 2 p) 0 (record p { nor = first }) in
      elim (write_page d t2.buffer t2.table 0) [
        | none ↦ none
        | some (b, left) ↦
            let t3 = with_buffer t2 b in
            let t4 = put_page t3 2 (record (page_in t3 2) { nor = second }) in
            elim (write_page d t4.buffer t4.table 2) [
              | none ↦ none
              | some (b', right) ↦
                  some (with_buffer t4 b', record { key = key; left = left; right = right })
            ]
      ]

  -- A full leaf in page buffer 0, which has `page`: it is sorted and split.
  unfoldable pub split_leaf_nor : Tree St → (page : ℕ) → Record → Option (Tree St × Separator)
  unfolding sort_block write_halves Leaf.split_left Leaf.split_right Leaf.promoted_key page_in
      with_buffer
  split_leaf_nor t page r =
      let (n, count) = sort_block g (page_in t 0).nor in
      let t1 = record t { num_nodes = (t.num_nodes + 1) % 2 ^ 32 } in
      let t2 = with_buffer t1 (set_free d t1.buffer page) in
      let p = record (set_prev (page_in t2 0) prev_id_constant) { nor = n; count_field = 0 } in
      write_halves t2 p (Leaf.split_left g n count r.key r.value)
        (Leaf.split_right g n count r.key r.value) (Leaf.promoted_key n count r.key)

  -- A full interior node in page buffer 0, at `page`, which the insertion left as `q`: it is sorted
  -- and split.
  unfoldable pub split_node_nor :
      Tree St → (page : ℕ) → (q : NorPage) → Separator → Option (Tree St × Separator)
  unfolding sort_interior_block write_halves Split.split_left Split.split_right Split.promoted_key
      page_in with_buffer
  split_node_nor t page q s =
      let t1 = record t { num_nodes = (t.num_nodes + 1) % 2 ^ 32 } in
      let (n, total) = sort_interior_block g q in
      let count = total - 1 in
      let t2 = with_buffer t1 (set_free d t1.buffer page) in
      let p = record (set_prev (page_in t2 0) prev_id_constant) { nor = n; count_field = 10000 } in
      write_halves t2 p (Split.split_left g n count s.key s.left s.right)
        (Split.split_right g n count s.key s.left s.right) (Split.promoted_key n count)

  -- The new root, when the old one was split.
  unfoldable pub put_root_nor : Tree St → Separator → Option (Tree St)
  unfolding set_count_bit_interior page_in put_page with_buffer set_path
  put_root_nor t s =
      let t1 = with_buffer t (init_buffer_page d t.buffer 0) in
      let blank = page_in t1 0 in
      let n = set_count_bit_interior (set_count_bit_interior blank.nor 0) 1 in
      let filled = record n {
        keys = update n.keys 0 s.key;
        values = update (update n.values 0 s.left) 1 s.right;
      } in
      let root = record (set_prev blank prev_id_constant) { nor = filled; count_field = 20000 } in
      let t2 = record (put_page t1 0 root) { num_nodes = (t.num_nodes + 1) % 2 ^ 32 } in
      elim (write_page d t2.buffer t2.table 0) [
        | none ↦ none
        | some (b, page) ↦
            some (record (set_path (with_buffer t2 b) 0 page) { levels = (t.levels + 1) % 2 ^ 8 })
      ]

  -- The loop over the nodes above a split, `left` of them.
  unfoldable pub put_parents_nor : (left : ℕ) → Tree St → Separator → Option (Tree St × Bool)
  unfolding insert_interior split_node_nor put_root_nor with_buffer page_in put_page
  put_parents_nor zero t s = elim (put_root_nor t s) [ none ↦ none | some t' ↦ some (t', true) ]
  put_parents_nor (suc l) t s =
      let parent = t.active_path l in
      let t1 = record t { node_split_id = parent } in
      let t2 = with_buffer t1 (set_free d t1.buffer parent) in
      let (b, found) = read_page_buffer d t2.buffer parent 0 in
      let t3 = with_buffer t2 b in
      let (n, inserted) = insert_interior g (page_in t3 0).nor s.key s.left s.right in
      elim found [
        | false ↦ some (t3, false)
        | true ↦ elim inserted [
          | true ↦
              let t4 = put_page t3 0 (record (page_in t3 0) { nor = n }) in
              some (with_buffer t4 (overwrite_page d t4.buffer 0 parent), true)
          | false ↦ elim (split_node_nor t3 parent n s) [
            | none ↦ none
            | some (t', s') ↦ put_parents_nor l t' s'
          ]
        ]
      ]

  -- `vmtreePutNorOverwrite` from the leaf on. The tree is printed when the leaf cannot be read.
  unfoldable pub put_at_leaf_nor : Tree St → (page : ℕ) → Record → Option (Tree St × Bool)
  unfolding append_record split_leaf_nor put_parents_nor print_tree with_buffer page_in put_page
  put_at_leaf_nor t page r =
      let (b, found) = read_page_buffer d t.buffer page 0 in
      let t1 = with_buffer t b in
      elim found [
        | false ↦ elim (print_tree d g t1) [ none ↦ none | some t' ↦ some (t', false) ]
        | true ↦ elim (append_record g (page_in t1 0).nor r.key r.value) [
          | some n ↦
              let t2 = put_page t1 0 (record (page_in t1 0) { nor = n }) in
              some (with_buffer t2 (overwrite_page d t2.buffer 0 page), true)
          | none ↦ elim (split_leaf_nor t1 page r) [
            | none ↦ none
            | some (t', s) ↦ put_parents_nor (t'.levels - 1) t' s
          ]
        ]
      ]

  -- `vmtreePutNorOverwrite`
  unfoldable pub put_nor_overwrite : Tree St → Record → Option (Tree St × Bool)
  unfolding find_leaf_nor put_at_leaf_nor
  put_nor_overwrite t r = elim (find_leaf_nor (t.levels - 1) t r.key 0 (t.active_path 0)) [
    | none ↦ none
    | some (t', none) ↦ some (t', false)
    | some (t', some page) ↦ put_at_leaf_nor t' page r
  ]

  -- `vmtreePut` for OVERWRITE, where there is no log buffer: the capacity first, on the fuel given.
  unfoldable pub put_nor : (fuel : ℕ) → Tree St → Record → Option (Tree St × Bool)
  unfolding put_nor_overwrite with_buffer
  put_nor fuel t r = elim (ensure_space d fuel t.buffer t.table 8) [
    | none ↦ none
    | some (b, false) ↦ some (with_buffer t b, false)
    | some (b, true) ↦ put_nor_overwrite (with_buffer t b) r
  ]
