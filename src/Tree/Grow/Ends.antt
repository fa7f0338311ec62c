-- ===== src/Tree/Grow/Ends.antt =====
-- `vmtreePutRecord` of src/vmtree.c at the leaf that the walk came to, in a tree of several levels.
use vmtree.Base.{
  ℕ, suc, ◌-◌, ◌≤◌, ◌<◌, ◌≡◌, ◌≢◌, ◌⊎◌, refl, true, Option, none, some, Memory, arith, ◌∙◌, sym,
  inl, inr, subst,
}
use vmtree.Records.{Record}
use vmtree.Mapping.{get_mapping, add_mapping}
use vmtree.Mapping.Count.{add_mapping-IsValid}
use vmtree.Node.{Page, get_count}
use vmtree.Node.Search.{Place}
use vmtree.Node.Leaf.{insert_record}
use vmtree.Storage.{Device, Keeps}
use vmtree.Buffer.{Buffer, inc32, set_free, is_free, next_valid_page}
use vmtree.Buffer.Returns.{IsReady, read_fields}
use vmtree.Buffer.Allocate.{HasPages, next_valid_page-IsWritable}
use vmtree.Tree.{Tree, moving, page_in}
use vmtree.Tree.Put.{put_at_leaf}
use vmtree.Tree.Shape.{IsLeaf, IsTree, Within}
use vmtree.Tree.Owned.{View, IsPointer, IsPlace, IsOwned, Linked, view}
use vmtree.Tree.Answers.{Has}
use vmtree.Tree.Insert.Grown.{leaf_place, insert_record-Grown}
use vmtree.Tree.Insert.Written.{IsReady-write}
use vmtree.Tree.Grow.Way.{IsWay, Labelled}
use vmtree.Tree.Grow.Replace.{Replaced, IsWay-Replaced}
use vmtree.Tree.Grow.Written.{behind-IsBytes, relabelled, new_view, written-Moves, leaf-Replaced}
use vmtree.Tree.Grow.Run.{Links, update_prev-Links, filled, out, at_leaf}
use vmtree.Tree.Grow.Whole.{IsWhole, is_used}

module _ {St : Type 0} (d : Device Page St) {has : St → ℕ → Type 0} (keeps : Keeps d has) where
  -- What the tree has after a record was put.
  pub record Added (t : Tree St) (r : Record) (t' : Tree St) : Type 0 where
    pub whole : IsWhole d t'
    pub old : (x : Record) → Has d t x → Has d t' x
    pub new : Has d t' r
    pub only : (x : Record) → Has d t' x → Has d t x ⊎ (x ≡ r)

  abbrev pub at_view : (t : Tree St) → IsWhole d t → View
  at_view t w = view w.labels (is_used d t.buffer) t.table (d.read_page t.buffer.storage)

  -- The leaf that the walk came to, and the page that it goes to.
  pub record Ends (t : Tree St) (w : IsWhole d t) (b : Buffer St) (r : Record) (leaf q low next : ℕ)
      (high : Option ℕ) (p : Page) : Type 0 where
    pub ready : IsReady d b
    pub held : d.read_page t.buffer.storage leaf ≡ some p
    pub is_leaf : IsLeaf p low high
    pub within : Within low high r.key
    pub place : IsPlace (at_view t w) 0 low leaf
    pub pointer : IsPointer (at_view t w) 0 low q
    pub leads : get_mapping t.table q ≡ leaf
    pub chosen : Buffer St
    pub found : next_valid_page d (set_free d b leaf) t.table ≡ some (chosen, next)
    pub room : (add_mapping t.table q next).1 ≡ true
    pub few : get_count p < 9999
    pub space : get_count p < t.geometry.max_records
    pub apart :
        (i : ℕ)
        → 1 ≤ i
        → i < t.buffer.num_pages
        → b.status i ≢ 0
        → (b.status i ≢ next) × has t.buffer.storage (b.status i)

  -- The previous page in the header of the leaf names the pointer to it.
  Ends-Links :
      (t : Tree St) (w : IsWhole d t) (b : Buffer St) (r : Record) (leaf q low next : ℕ)
      (high : Option ℕ) (p : Page) (path : Memory ℕ) (place : Place)
      → Ends t w b r leaf q low next high p
      → Links d (filled d (record t { buffer = b; active_path = path }) leaf p place r) leaf q
  unfolding page_in insert_record
  Ends-Links t w b r leaf q low next high p path place e =
      let linked : Linked (at_view t w) q leaf = rw (e.leads) at (e.pointer.linked) in
      update_prev-Links d (filled d (record t { buffer = b; active_path = path }) leaf p place r)
        leaf q e.leads
        (elim (linked p e.held) [
          | inl (same, inl big) ↦ inl (same, inl big)
          | inl (same, inr (h, ne)) ↦ inl (same, inr ne)
          | inr old ↦ inr old
        ])

  -- The page buffers after the write.
  Ends-IsReady :
      (t : Tree St) (w : IsWhole d t) (b : Buffer St) (r : Record) (leaf q low next : ℕ)
      (high : Option ℕ) (p : Page) (path : Memory ℕ) (place : Place)
      → (e : Ends t w b r leaf q low next high p)
      → (links : Links d
          (filled d (record t { buffer = b; active_path = path }) leaf p place r)
          leaf
          q)
      → b.storage ≡ t.buffer.storage
      → b.num_pages ≡ t.buffer.num_pages
      → has t.buffer.storage next
      → IsReady d
          (out d (record t { buffer = b; active_path = path }) leaf next q links.cells).buffer
  unfolding set_free
  Ends-IsReady t w b r leaf q low next high p path place e links same pages there =
      IsReady-write d keeps (set_free d b leaf) (links.cells) (inc32 b.num_reads) next next
        (record {
          coherent = record { agrees = e.ready.coherent.agrees; once = e.ready.coherent.once };
          pages = e.ready.pages;
          next = e.ready.next;
        })
        (λ i h. sym (links.others i h ∙ ground arith)) (rw same there)
        (λ i h k ne. rw same (e.apart i h (rw pages at k) ne))

  -- `put_at_leaf` after the walk, where `a` has the page buffers.
  pub Ends-Added :
      (t : Tree St) (w : IsWhole d t) (a : Buffer St) (path : Memory ℕ) (r : Record)
      (leaf q low next : ℕ) (high : Option ℕ) (p : Page)
      → t.algorithm ≡ moving
      → 2 ≤ t.levels
      → HasPages d keeps t.buffer
      → path 0 ≡ t.active_path 0
      → IsWay (at_view t w) leaf q low high (t.levels - 1) (t.active_path 0) 0 none
      → Ends t w (read_fields d t.buffer a) r leaf q low next high p
      → (t' : Tree St) × (put_at_leaf d
            (record t { buffer = read_fields d t.buffer a; active_path = path })
            leaf
            r
          ≡ some (t', true))
        × Added t r t'
  unfolding page_in insert_record is_free set_free
  Ends-Added t w a path r leaf q low next high p mov levels all root way e =
      let b = read_fields d t.buffer a in
      let t1 = record t { buffer = b; active_path = path } in
      let (place, run, splits) = leaf_place p r.key e.is_leaf.sorted in
      let grown = insert_record-Grown p place r low high e.is_leaf e.within splits e.few in
      let free =
        ((next_valid_page-IsWritable d (set_free d b leaf) t.table).0 e.chosen next e.found).0 in
      let links = Ends-Links t w b r leaf q low next high p path place e in
      let taken : is_used d b leaf ≡ true = e.place.in_use in
      let moves =
        written-Moves d keeps w.labels b t.table leaf next q low (links.cells) all w.bytes w.bits
          w.few_pages taken free w.valid (e.pointer.small) e.room in
      let (base, linked) =
        leaf-Replaced d keeps w.labels b t.table leaf next q low (links.cells) all w.bytes w.bits
          w.few_pages taken free t.geometry p (insert_record p place r) r high e.held grown
          (links.here) (omega (arith, e.pointer.small)) in
      let after =
        behind-IsBytes d keeps w.labels b t.table leaf next q low (links.cells) all w.bytes w.bits
          w.few_pages taken free in
      let labelled : Labelled (at_view t w) leaf q low high = record {
        level_of = e.place.level_of;
        low_of = e.place.low_of;
        pointer_level = e.pointer.level_of;
        pointer_low = e.pointer.low_of;
      } in
      let l = t.levels - 2 in
      let down : t.levels - 1 ≡ suc l = omega (arith, levels) in
      let tree' =
        IsWay-Replaced moves t.geometry r low high labelled linked base l (t.active_path 0) 0 none
          (subst
            (λ n.
              IsTree t.table (d.read_page t.buffer.storage) t.geometry n (t.active_path 0) 0 none)
            down w.sound.tree)
          (subst (λ n. IsOwned (at_view t w) n (t.active_path 0) 0) down w.owned) tt
          (subst (λ n. IsWay (at_view t w) leaf q low high n (t.active_path 0) 0 none) down way) in
      let done : Replaced (at_view t w)
          (new_view d keeps w.labels b t.table leaf next q low (links.cells)) t.geometry r
          (t.levels - 1) (t.active_path 0) (path 0) 0 none =
        rw (down, root) tree' in
      (
        out d t1 leaf next q (links.cells),
        at_leaf d t1 leaf q next p place r e.chosen mov levels e.held e.is_leaf.flat e.space run
            links e.found e.room,
        record {
          whole = record {
            sound = record {
              ready =
                  Ends-IsReady t w b r leaf q low next high p path place e links refl refl
                    (all next free.exists);
              some_levels = w.sound.some_levels;
              tree = done.tree;
            };
            labels = relabelled w.labels next low;
            owned = done.owned;
            valid = add_mapping-IsValid q next e.pointer.small w.valid;
            bytes = after.0;
            bits = after.1;
            few_pages = after.2;
          };
          old = done.old;
          new = done.new;
          only = done.only;
        },
      )
