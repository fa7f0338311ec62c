-- ===== src/Tree/Walk.antt =====
-- `vmtreeGet` from the root to the leaf: what it finds in a whole tree.
use vmtree.Base.{
  ℕ, zero, suc, ◌+◌, ◌≤◌, ◌<◌, ◌≡◌, refl, Bool, true, false, ◌&&◌, not, Option, some, ◌==◌, arith,
  ◌∙◌, Bool-cases, inl, inr,
}
use vmtree.Records.{Record}
use vmtree.Mapping.{Mappings, get_mapping}
use vmtree.Node.{Page, Geometry, get_count, is_interior}
use vmtree.Node.Search.{search_node}
use vmtree.Node.Search.Found.{Ascends, SplitsAt, keys_of, search_interior-SplitsAt}
use vmtree.Storage.{Device}
use vmtree.Buffer.{Buffer}
use vmtree.Buffer.Returns.{IsReady, read_page-Reads, read_fields}
use vmtree.Tree.{Tree, with_buffer, get_child_page_id}
use vmtree.Tree.Put.{step_down}
use vmtree.Tree.Get.{walk}
use vmtree.Tree.Shape.{IsNode, IsTree, InTree, lower, upper, InTree-leaf, InTree-child}

-- A node's keys, strictly rising, ascend.
rising-Ascends :
    {g : Geometry} {t : Mappings} {p : Page} {lo : ℕ} {hi : Option ℕ}
    → IsNode g t p lo hi
    → Ascends (get_count p) p.keys
rising-Ascends {p = p} n i j h k = elim (Bool-cases (i == j)) [
  | inl e ↦ (let same : i ≡ j = ground arith in rw same (omega arith))
  | inr e ↦ omega (arith, n.rising i j (ground arith) k)
]

get_child_page_id-leads :
    {g : Geometry} (t : Mappings) (p : Page) (lo : ℕ) (hi : Option ℕ) (c : ℕ)
    → IsNode g t p lo hi
    → c ≤ get_count p
    → get_child_page_id t p c ≡ some (get_mapping t (p.pointers c))
unfolding get_child_page_id
get_child_page_id-leads t p lo hi c n h = ground (arith, n.leads c h)

search_node-interior :
    {t : Mappings} (g : Geometry) (levels : ℕ) (p : Page) (lo : ℕ) (hi : Option ℕ) (key : ℕ)
    (range : Bool)
    → IsNode g t p lo hi
    → 2 ≤ levels
    → (c : ℕ) × (search_node g levels p key range ≡ some (some c))
      × SplitsAt (get_count p) p.keys key c
unfolding search_node
search_node-interior g levels p lo hi key range n h =
    let (c, run, s) = search_interior-SplitsAt g p key (rising-Ascends n) n.fits in
    let inner : (is_interior p && not (levels == 1)) ≡ true = ground (arith, n.interior) in
    (c, rw (inner, run, search_node) refl, s)

-- The storage `st` under the buffers of the tree does not change in a walk.
module _ {St : Type 0} (d : Device Page St) (st : St) where
  -- One level down: the child where the key splits the keys of the node.
  pub record Steps (t : Tree St) (page key : ℕ) (range : Bool) (p : Page) : Type 0 where
    pub after : Buffer St
    pub child : ℕ
    pub splits : SplitsAt (get_count p) p.keys key child
    pub run :
        step_down d t page key range
        ≡ some (with_buffer t after, some (child, get_mapping t.table (p.pointers child)))
    pub storage : after.storage ≡ st
    pub rest : after ≡ read_fields d t.buffer after
    pub ready : IsReady d after

  pub step_down-Steps :
      (t : Tree St) (page key lo : ℕ) (hi : Option ℕ) (range : Bool) (p : Page)
      → IsReady d t.buffer
      → t.buffer.storage ≡ st
      → d.read_page st page ≡ some p
      → IsNode t.geometry t.table p lo hi
      → 2 ≤ t.levels
      → Steps t page key range p
  unfolding step_down
  step_down-Steps t page key lo hi range p ready same held n h =
      let r = read_page-Reads d t.buffer (t.active_path 0) page p ready (rw same held) in
      let (c, search, s) = search_node-interior t.geometry t.levels p lo hi key range n h in
      let leads = get_child_page_id-leads t.table p lo hi c n s.inside in
      let search' : search_node t.geometry t.levels (r.after.buffers r.slot) key range
          ≡ some (some c) =
        rw (r.found) search in
      let leads' : get_child_page_id t.table (r.after.buffers r.slot) c
          ≡ some (get_mapping t.table (p.pointers c)) =
        rw (r.found) leads in
      record {
        after = r.after;
        child = c;
        splits = s;
        run = rw (r.run, step_down, search', leads') refl;
        storage = r.storage ∙ same;
        rest = r.rest;
        ready = r.ready;
      }

  -- The walk comes to the leaf that has all records of the tree with the key.
  pub record Walks (t : Tree St) (l key page : ℕ) : Type 0 where
    pub after : Buffer St
    pub leaf : ℕ
    pub p : Page
    pub run : walk d l t key page ≡ some (with_buffer t after, some leaf)
    pub ready : IsReady d after
    pub storage : after.storage ≡ st
    pub held : d.read_page st leaf ≡ some p
    pub flat : is_interior p ≡ false
    pub sorted : Ascends (get_count p) (keys_of p.records)
    pub covers :
        (r : Record)
        → r.key ≡ key
        → InTree t.table (d.read_page st) l page r
        → (i : ℕ) × (i < get_count p) × (p.records i ≡ r)
    pub within : (i : ℕ) → i < get_count p → InTree t.table (d.read_page st) l page (p.records i)

  pub walk-Walks :
      (l : ℕ) (t : Tree St) (key page lo : ℕ) (hi : Option ℕ)
      → IsReady d t.buffer
      → t.buffer.storage ≡ st
      → IsTree t.table (d.read_page st) t.geometry l page lo hi
      → l + 1 ≤ t.levels
      → Walks t l key page
  unfolding walk IsTree InTree with_buffer
  walk-Walks zero t key page lo hi ready same (p, held, leaf) h = record {
    after = t.buffer;
    leaf = page;
    p = p;
    run = refl;
    ready = ready;
    storage = same;
    held = held;
    flat = leaf.flat;
    sorted = leaf.sorted;
    covers = λ r e inn. InTree-leaf t.geometry t.table (d.read_page st) page p r held inn;
    within = λ i k. (p, held, (i, k, refl));
  }
  walk-Walks (suc l) t key page lo hi ready same (p, held, n, below) h =
      let s = step_down-Steps t page key lo hi false p ready same held n (omega arith) in
      let c = s.child in
      let t' = with_buffer t s.after in
      let next = get_mapping t.table (p.pointers c) in
      let w =
        walk-Walks l t' key next (lower p lo c) (upper p hi c) s.ready s.storage
          (below c s.splits.inside) (omega arith) in
      record {
        after = w.after;
        leaf = w.leaf;
        p = w.p;
        run = rw (s.run, walk) (w.run);
        ready = w.ready;
        storage = w.storage;
        held = w.held;
        flat = w.flat;
        sorted = w.sorted;
        covers = λ r e inn. w.covers r e (
            InTree-child t.geometry t.table (d.read_page st) l page lo hi p c r held n below
              (rw e (s.splits)) inn);
        within = λ i k. (p, held, (c, s.splits.inside, w.within i k));
      }
