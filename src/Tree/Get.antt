-- ===== src/Tree/Get.antt =====
-- `vmtreeGet` and `vmtreeClearMappings` of src/vmtree.c.
use vmtree.Base.{
  ℕ, zero, suc, ◌+◌, ◌-◌, true, false, ◌&&◌, not, Option, none, some, min, ◌==◌, if◌then◌else◌,
}
use vmtree.Mapping.{get_mapping}
use vmtree.Node.{Page, get_count, is_interior}
use vmtree.Node.Search.{search_node}
use vmtree.Storage.{Device}
use vmtree.Buffer.{read_page}
use vmtree.Tree.{Tree, page_in, with_buffer}
use vmtree.Tree.Mapped.{clear_node}
use vmtree.Tree.Put.{step_down}

module _ {St : Type 0} (d : Device Page St) where
  -- The walk of `vmtreeGet` to the leaf, `left` more levels from `page` on.
  unfoldable pub walk : (left : ℕ) → Tree St → (key page : ℕ) → Option (Tree St × Option ℕ)
  unfolding step_down
  walk zero t key page = some (t, some page)
  walk (suc left) t key page = elim (step_down d t page key false) [
    | none ↦ none
    | some (t', none) ↦ some (t', none)
    | some (t', some (child, next)) ↦ walk left t' key next
  ]

  -- The search of `vmtreeGet` in the leaf: the data of the record.
  unfoldable pub get_at_leaf : Tree St → (key page : ℕ) → Option (Tree St × Option ℕ)
  unfolding with_buffer
  get_at_leaf t key page = elim (read_page d t.buffer (t.active_path 0) page) [
    | none ↦ none
    | some (b, none) ↦ some (with_buffer t b, none)
    | some (b, some slot) ↦ elim (search_node t.geometry t.levels (b.buffers slot) key false) [
      | none ↦ none
      | some none ↦ some (with_buffer t b, none)
      | some (some i) ↦ some (with_buffer t b, some ((b.buffers slot).records i).value)
    ]
  ]

  -- `vmtreeGet`: the tree after it, and the data that it found.
  unfoldable pub get : Tree St → (key : ℕ) → Option (Tree St × Option ℕ)
  unfolding walk get_at_leaf
  get t key = elim (walk (t.levels - 1) t key (t.active_path 0)) [
    | none ↦ none
    | some (t', none) ↦ some (t', none)
    | some (t', some page) ↦ get_at_leaf t' key page
  ]

  -- The children that `vmtreeClearMappings` visits, `left` of them from the pointer `c` of the page
  -- in `slot` on: `visit` is its call of itself, after which the page is read again. The slot
  -- of the last read is given back.
  unfoldable pub clear_children :
      (visit : Tree St → ℕ → Option (Tree St))
      → (left : ℕ) → Tree St
      → (page slot c : ℕ) → Option (Tree St × ℕ)
  unfolding with_buffer page_in
  clear_children visit zero t page slot c = some (t, slot)
  clear_children visit (suc left) t page slot c = elim (visit t ((page_in t slot).pointers c)) [
    | none ↦ none
    | some t' ↦ elim (read_page d t'.buffer (t'.active_path 0) page) [
      | none ↦ none
      | some (b, none) ↦ none
      | some (b, some slot') ↦ clear_children visit left (with_buffer t' b) page slot' (c + 1)
    ]
  ]

  -- `vmtreeClearMappings`, on fuel for the depth of the tree. A page that cannot be read again
  -- after its children, where the code follows a null pointer, is `none`, too.
  unfoldable pub clear_mappings : (fuel : ℕ) → Tree St → (page : ℕ) → Option (Tree St)
  unfolding clear_children clear_node with_buffer page_in
  clear_mappings zero t page = none
  clear_mappings (suc fuel) t page0 =
      let page = get_mapping t.table page0 in
      elim (read_page d t.buffer (t.active_path 0) page) [
        | none ↦ none
        | some (b, none) ↦ some (with_buffer t b)
        | some (b, some slot) ↦
            let t1 = with_buffer t b in
            let p = page_in t1 slot in
            let c = min (get_count p) t.geometry.max_interior in
            elim (is_interior p && not (t.levels == 1)) [
              | false ↦ some t1
              | true ↦ elim (clear_children (clear_mappings fuel) c t1 page slot 0) [
                | none ↦ none
                | some (t2, slot2) ↦
                    let last = (page_in t2 slot2).pointers c in
                    elim (if last == 0 then some t2 else clear_mappings fuel t2 last) [
                      | none ↦ none
                      | some t3 ↦ elim (read_page d t3.buffer (t3.active_path 0) page) [
                        | none ↦ none
                        | some (b3, none) ↦ none
                        | some (b3, some slot3) ↦ clear_node d (with_buffer t3 b3) page slot3
                      ]
                    ]
              ]
            ]
      ]
