-- ===== src/Tree/Lookup.antt =====
-- `vmtreeGet` at the leaf: what it reports, when the page buffers agree with the storage.
use vmtree.Base.{
  ℕ, ◌-◌, ◌<◌, ◌≡◌, ◌≢◌, refl, false, ◌&&◌, not, Option, none, some, ◌==◌, ◌∙◌, sym, subst,
}
use vmtree.Node.{Page, get_count, is_interior}
use vmtree.Node.Search.{Place, search_node, search_leaf}
use vmtree.Node.Search.Found.{Ascends, keys_of, Finds, search_leaf-Finds}
use vmtree.Storage.{Device}
use vmtree.Buffer.{Buffer, read_page}
use vmtree.Buffer.Read.{IsCoherent, read_page-reads}
use vmtree.Tree.{Tree, with_buffer}
use vmtree.Tree.Get.{walk, get_at_leaf, get}

-- A right answer for a key in a leaf: the value of a record with the key, or that there is none.
pub data Reports (p : Page) (key : ℕ) : Option ℕ → Type 0 where
  present :
      (i : ℕ) → i < get_count p → (p.records i).key ≡ key → Reports p key (some (p.records i).value)
  missing : ((i : ℕ) → i < get_count p → (p.records i).key ≢ key) → Reports p key none

carry :
    {p q : Page} {key : ℕ} {found : Option ℕ} → p ≡ q → Reports q key found → Reports p key found
carry {key = key} {found = found} same right = subst (λ x. Reports x key found) (sym same) right

module _ {St : Type 0} (d : Device Page St) where
  get_at_leaf-Reports :
      (t : Tree St) (key page slot : ℕ) (b : Buffer St)
      → read_page d t.buffer (t.active_path 0) page ≡ some (b, some slot)
      → (is_interior (b.buffers slot) && not (t.levels == 1)) ≡ false
      → Ascends (get_count (b.buffers slot)) (keys_of (b.buffers slot).records)
      → (found : Option ℕ) × (get_at_leaf d t key page ≡ some (with_buffer t b, found))
        × Reports (b.buffers slot) key found
  unfolding get_at_leaf search_node
  get_at_leaf-Reports t key page slot b e leaf asc =
      let (place, run, finds) = search_leaf-Finds (b.buffers slot) key false asc in
      report place run finds
    where
      report :
          (place : Place)
          → search_leaf (b.buffers slot) key false ≡ some place
          → Finds false (get_count (b.buffers slot)) (b.buffers slot).records key place
          → (found : Option ℕ) × (get_at_leaf d t key page ≡ some (with_buffer t b, found))
            × Reports (b.buffers slot) key found
      report none run finds =
          (none, rw (e, get_at_leaf, leaf, search_node, run) refl, missing finds)
      report (some i) run finds = (
        some ((b.buffers slot).records i).value,
        rw (e, get_at_leaf, leaf, search_node, run) refl,
        present i finds.0 finds.1,
      )

  -- `vmtreeGet`, where its walk has come to a page that the storage holds as a leaf with ascending
  -- keys, the page buffers agree with the storage, and the read of the page returns a page buffer:
  -- it returns, and gives the data of a record with the key on that page, or -1 exactly if there is
  -- none.
  pub get-Reports :
      (t t1 : Tree St) (key page slot : ℕ) (p : Page) (b : Buffer St)
      → walk d (t.levels - 1) t key (t.active_path 0) ≡ some (t1, some page)
      → IsCoherent d t1.buffer
      → d.read_page t1.buffer.storage page ≡ some p
      → read_page d t1.buffer (t1.active_path 0) page ≡ some (b, some slot)
      → (is_interior p && not (t1.levels == 1)) ≡ false
      → Ascends (get_count p) (keys_of p.records)
      → (found : Option ℕ) × (get d t key ≡ some (with_buffer t1 b, found)) × Reports p key found
  unfolding get
  get-Reports t t1 key page slot p b walked c held read leaf asc =
      let reads = read_page-reads d t1.buffer b (t1.active_path 0) page slot c read in
      let both : some p ≡ some (b.buffers slot) = sym held ∙ reads.0 in
      let same : p ≡ b.buffers slot = cc in
      let (found, run, right) =
        get_at_leaf-Reports t1 key page slot b read (rw same at leaf) (rw same at asc) in
      (found, rw (walked, get) run, carry same right)
