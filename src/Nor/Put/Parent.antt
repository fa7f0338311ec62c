-- ===== src/Nor/Put/Parent.antt =====
-- The node above a split in `vmtreePutNorOverwrite` of src/vmtree.c, and the page that it is on.
use vmtree.Base.{ℕ, suc, ◌/◌, ◌≤◌, ◌<◌, ◌≡◌, refl, true, some, update, arith, length, ◌∙◌, ap}
use vmtree.BitArr.{unit_size, bitarr_get}
use vmtree.BitArr.Laws.{IsBytes, bitarr_get-bitarr_set}
use vmtree.Mapping.{get_mapping}
use vmtree.Node.{Page}
use vmtree.Node.Interior.{Separator}
use vmtree.Storage.{Device, Keeps}
use vmtree.Buffer.{inc32, set_free, is_free, read_page_buffer, overwrite_page}
use vmtree.Buffer.Allocate.{IsWritable}
use vmtree.Tree.{Tree, page_in, put_page, with_buffer}
use vmtree.Nor.{NorPage, NorGeometry}
use vmtree.Nor.Interior.{insert_interior}
use vmtree.Nor.Put.{put_parents_nor}
use vmtree.Nor.Put.Append.{overwrite_page-storage}

module _ {St : Type 0} (d : Device Page St) {has : St → ℕ → Type 0} (keeps : Keeps d has) where
  -- The tree with the node in page buffer 0, and its page set free.
  abbrev freed : Tree St → (parent : ℕ) → Page → Tree St
  freed t parent p = record t {
    buffer = record (set_free d t.buffer parent) {
      buffers = update t.buffer.buffers 0 p;
      num_reads = inc32 t.buffer.num_reads;
    };
    node_split_id = parent;
  }

  -- When the node above a split, at page `parent` of the active path, has space for the record of
  -- the split, then `vmtreePutNorOverwrite` returns 0, the storage has the node with the record at
  -- `parent`, which stays in the active path, and `parent` is a page that may be written for another
  -- node: it was set free, and `overWritePage` does not take it back. (`parent` is a data page with
  -- a bit, from which no mapping leads, and the storage keeps what is written.)
  pub put_parents_nor-IsWritable :
      (g : NorGeometry) (t : Tree St) (l : ℕ) (s : Separator) (p : Page) (n : NorPage)
      → d.read_page t.buffer.storage (t.active_path l) ≡ some p
      → has t.buffer.storage (t.active_path l)
      → insert_interior g p.nor s.key s.left s.right ≡ (n, true)
      → IsBytes t.buffer.free_pages
      → t.active_path l / unit_size < length t.buffer.free_pages
      → t.active_path l ≤ t.buffer.end_data_page
      → get_mapping t.table (t.active_path l) ≡ t.active_path l
      → (t' : Tree St) × (put_parents_nor d g (suc l) t s ≡ some (t', true))
        × (d.read_page t'.buffer.storage (t'.active_path l) ≡ some (record p { nor = n }))
        × (t'.active_path l ≡ t.active_path l)
        × IsWritable d t'.buffer t'.table (t'.active_path l)
  unfolding put_parents_nor read_page_buffer with_buffer page_in put_page set_free is_free
  put_parents_nor-IsWritable g t l s p n held there e bytes inside exists unmapped =
      let parent = t.active_path l in
      let read : read_page_buffer d (set_free d t.buffer parent) parent 0
          ≡ ((freed t parent p).buffer, true) =
        rw (held, read_page_buffer) refl in
      let b = (put_page (freed t parent p) 0 (record p { nor = n })).buffer in
      let (storage, free, last) = overwrite_page-storage d b 0 parent in
      let bit : bitarr_get (overwrite_page d b 0 parent).free_pages parent ≡ 1 =
        rw free
          (bitarr_get-bitarr_set t.buffer.free_pages parent parent 1 inside bytes ∙ ground arith) in
      (
        with_buffer (freed t parent p) (overwrite_page d b 0 parent),
        rw (read, put_parents_nor) (ground (arith, e)),
        ap (λ x. d.read_page x parent) storage
            ∙ keeps.same t.buffer.storage parent (record p { nor = n }) there,
        refl,
        record { exists = rw last exists; free = omega (arith, bit); unmapped = unmapped },
      )
