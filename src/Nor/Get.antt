-- ===== src/Nor/Get.antt =====
-- `vmtreeGet` of src/vmtree.c for OVERWRITE.
pub mod Missing
use vmtree.Base.{ℕ, zero, suc, ◌-◌, ◌&&◌, not, Option, none, some, ◌==◌}
use vmtree.Node.{Page, is_interior}
use vmtree.Storage.{Device}
use vmtree.Buffer.{read_page}
use vmtree.Tree.{Tree, with_buffer}
use vmtree.Nor.{NorGeometry}
use vmtree.Nor.Interior.{search_node_overwrite}
use vmtree.Nor.Put.{step_down_nor}

module _ {St : Type 0} (d : Device Page St) (g : NorGeometry) where
  -- The walk to the leaf, `left` more levels from `page` on. A search of OVERWRITE does not depend
  -- on the range flag.
  unfoldable pub walk_nor : (left : ℕ) → Tree St → (key page : ℕ) → Option (Tree St × Option ℕ)
  unfolding step_down_nor
  walk_nor zero t key page = some (t, some page)
  walk_nor (suc left) t key page = elim (step_down_nor d g t page key) [
    | none ↦ none
    | some (t', none) ↦ some (t', none)
    | some (t', some next) ↦ walk_nor left t' key next
  ]

  -- The search in the leaf: the data at the location that it gives, which is never -1.
  unfoldable pub get_at_leaf_nor : Tree St → (key page : ℕ) → Option (Tree St × Option ℕ)
  unfolding with_buffer search_node_overwrite
  get_at_leaf_nor t key page = elim (read_page d t.buffer (t.active_path 0) page) [
    | none ↦ none
    | some (b, none) ↦ some (with_buffer t b, none)
    | some (b, some slot) ↦
        let p = b.buffers slot in
        let loc = search_node_overwrite g (is_interior p && not (t.levels == 1)) p.nor key in
        some (with_buffer t b, some (p.nor.values loc))
  ]

  -- `vmtreeGet` for OVERWRITE: the tree after it, and the data that it found.
  unfoldable pub get_nor : Tree St → (key : ℕ) → Option (Tree St × Option ℕ)
  unfolding walk_nor get_at_leaf_nor
  get_nor t key = elim (walk_nor (t.levels - 1) t key (t.active_path 0)) [
    | none ↦ none
    | some (t', none) ↦ some (t', none)
    | some (t', some page) ↦ get_at_leaf_nor t' key page
  ]
