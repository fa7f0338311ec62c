-- ===== src/Tree/Answers.antt =====
-- `vmtreeGet` as a lookup in the set of the records of a tree.
use vmtree.Base.{
  ℕ, ◌-◌, ◌≤◌, ◌≡◌, ◌≢◌, refl, false, ◌&&◌, not, Option, none, some, ◌==◌, arith, ap, ◌∙◌,
}
use vmtree.Records.{Record}
use vmtree.Node.{Page, is_interior}
use vmtree.Storage.{Device}
use vmtree.Buffer.{Buffer}
use vmtree.Buffer.Returns.{IsReady, read_page-Reads}
use vmtree.Tree.{Tree, with_buffer}
use vmtree.Tree.Get.{get}
use vmtree.Tree.Shape.{IsTree, InTree}
use vmtree.Tree.Walk.{Walks, walk-Walks}
use vmtree.Tree.Lookup.{Reports, present, missing, get-Reports}

-- The answer of a lookup in a set of records.
pub data Answers (has : Record → Type 0) (key : ℕ) : Option ℕ → Type 0 where
  hit : (r : Record) → has r → r.key ≡ key → Answers has key (some r.value)
  miss : ((r : Record) → has r → r.key ≢ key) → Answers has key none

-- The tree in the storage: all its levels below the root page.
pub record IsSound {St : Type 0} (d : Device Page St) (t : Tree St) : Type 0 where
  pub ready : IsReady d t.buffer
  pub some_levels : 1 ≤ t.levels
  pub tree :
      IsTree t.table
        (d.read_page t.buffer.storage)
        t.geometry
        (t.levels - 1)
        (t.active_path 0)
        0
        none

-- The records of the tree.
abbrev pub Has : {St : Type 0} → Device Page St → Tree St → Record → Type 0
Has d t r = InTree t.table (d.read_page t.buffer.storage) (t.levels - 1) (t.active_path 0) r

module _ {St : Type 0} (d : Device Page St) where
  answers :
      (t : Tree St) (key l page : ℕ) (w : Walks d t.buffer.storage t l key page) {found : Option ℕ}
      → Reports w.p key found
      → Answers (λ r. InTree t.table (d.read_page t.buffer.storage) l page r) key found
  answers t key l page w (present i h e) = hit (w.p.records i) (w.within i h) e
  answers t key l page w (missing none_has) = miss λ r inn e.
      (let (i, h, same) = w.covers r e inn in none_has i h (ap (λ (x : Record). x.key) same ∙ e))

  -- `vmtreeGet` on a sound tree of any number of levels returns, and gives the data of a record of
  -- the tree that has the key, or -1 exactly if the tree has no such record. The storage and the
  -- tree, which stays sound, are as before but for the page buffers.
  pub get-Answers :
      (t : Tree St) (key : ℕ)
      → IsSound d t
      → (found : Option ℕ) × (after : Buffer St) × (get d t key ≡ some (with_buffer t after, found))
        × Answers (Has d t) key found
        × (after.storage ≡ t.buffer.storage)
        × IsSound d (with_buffer t after)
  unfolding with_buffer
  get-Answers t key s =
      let l = t.levels - 1 in
      let root = t.active_path 0 in
      let w =
        walk-Walks d t.buffer.storage l t key root 0 none s.ready refl s.tree
          (omega (arith, s.some_levels)) in
      let r = read_page-Reads d w.after root w.leaf w.p w.ready (rw (w.storage) (w.held)) in
      let flat : (is_interior w.p && not (t.levels == 1)) ≡ false = rw (w.flat) refl in
      let (found, run, right) =
        get-Reports d t (with_buffer t w.after) key w.leaf r.slot w.p r.after w.run
          (w.ready.coherent) (rw (w.storage) (w.held)) r.run flat w.sorted in
      (
        found,
        r.after,
        run,
        answers t key l root w right,
        r.storage ∙ w.storage,
        record {
          ready = r.ready;
          some_levels = s.some_levels;
          tree = rw (r.storage, w.storage) (s.tree);
        },
      )
