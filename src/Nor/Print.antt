-- ===== src/Nor/Print.antt =====
-- `vmtreePrint` of src/vmtree.c for OVERWRITE, for what it does to the tree: `vmtreePutNorOverwrite`
-- calls it when a leaf cannot be read. The text that it prints is left out. `none` is a run that
-- leaves the C language: an entry of `activePath` past its last, or a page read through NULL.
use vmtree.Base.{
  ℕ, zero, suc, ◌+◌, ◌%◌, ◌^◌, true, false, ◌&&◌, ◌||◌, not, Option, none, some, ltb, leb, ◌==◌,
  if◌then◌else◌,
}
use vmtree.Mapping.{get_mapping}
use vmtree.Node.{Page, is_interior}
use vmtree.Storage.{Device}
use vmtree.Buffer.{read_page}
use vmtree.Tree.{Tree, page_in, with_buffer, set_path}
use vmtree.Nor.{NorGeometry, interior_limit, is_live}

-- `MAX_LEVEL`: the entries of `activePath`
abbrev pub max_level : ℕ
max_level = 8

-- The loop that sets the entries of the levels to 0, in a tree of fewer levels than entries.
unfoldable pub reset_path : {St : Type 0} → Tree St → Tree St
reset_path t = record t {
  active_path = λ l. if leb 1 l && leb l t.levels then 0 else t.active_path l;
}

module _ {St : Type 0} (d : Device Page St) (g : NorGeometry) where
  -- The children that `vmtreePrintNode` visits. The bitmaps are read through the pointers into the
  -- page buffer `slot` of the first read, whatever page that holds by now, and the pointer from
  -- `again`, the page buffer of the last read. When a leaf with a bitmap of another size stands in
  -- `slot`, the bits are other ones than those of a location, and the result is `none`, too.
  unfoldable pub print_children :
      (visit : Tree St → ℕ → Option (Tree St))
      → (rounds : ℕ) → Tree St
      → (page slot : ℕ) → (again : Option ℕ) → (c : ℕ) → Option (Tree St)
  unfolding page_in with_buffer
  print_children visit zero t page slot again c = some t
  print_children visit (suc rounds) t page slot again c =
      let p = page_in t slot in
      elim (is_interior p || g.bitmap_size == g.interior_bitmap_size) [
        | false ↦ none
        | true ↦ elim (is_live p.nor c) [
          | false ↦ print_children visit rounds t page slot again (c + 1)
          | true ↦ elim again [
            | none ↦ none
            | some last ↦ elim (visit t ((page_in t last).nor.values c)) [
              | none ↦ none
              | some t' ↦ elim (read_page d t'.buffer (t'.active_path 0) page) [
                | none ↦ none
                | some (b, next) ↦
                    print_children visit rounds (with_buffer t' b) page slot next (c + 1)
              ]
            ]
          ]
        ]
      ]

  -- `vmtreePrintNode` at a depth, with `left` entries of `activePath` below it.
  unfoldable pub print_node : (left : ℕ) → Tree St → (page depth : ℕ) → Option (Tree St)
  unfolding print_children with_buffer page_in set_path
  print_node zero t page0 depth =
      elim (read_page d t.buffer (t.active_path 0) (get_mapping t.table page0)) [
        | none ↦ none
        | some (b, none) ↦ some (with_buffer t b)
        | some (b, some slot) ↦ none
      ]
  print_node (suc left) t page0 depth =
      let page = get_mapping t.table page0 in
      elim (read_page d t.buffer (t.active_path 0) page) [
        | none ↦ none
        | some (b, none) ↦ some (with_buffer t b)
        | some (b, some slot) ↦
            let nodes = (t.active_path (depth + 1) + 1) % 2 ^ 32 in
            let t1 = set_path (with_buffer t b) (depth + 1) nodes in
            elim (is_interior (page_in t1 slot) && not (t.levels == 1)) [
              | false ↦ some t1
              | true ↦
                  print_children (λ t' child. print_node left t' child (depth + 1))
                    (interior_limit g) t1 page slot (some slot) 0
            ]
      ]

  -- `vmtreePrint`
  unfoldable pub print_tree : Tree St → Option (Tree St)
  unfolding print_node reset_path
  print_tree t = elim (ltb t.levels max_level) [
    | false ↦ none
    | true ↦ print_node 7 (reset_path t) (t.active_path 0) 0
  ]
