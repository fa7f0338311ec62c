-- ===== src/Tree/Grow.antt =====
-- `vmtreePutRecord` of src/vmtree.c without a split on a tree of several levels, as an insertion into
-- the set of its records.
mod Moved
mod Way
mod Replace
mod Route
mod Written
mod Run
pub mod Ends
pub mod Whole
pub mod Puts
use vmtree.Base.{
  ℕ, zero, suc, ◌+◌, ◌-◌, ◌≤◌, ◌<◌, ◌≡◌, ◌≢◌, ◌⊎◌, refl, Bool, true, Option, none, some, Memory,
  ◌==◌, if◌then◌else◌, arith, ◌∙◌, sym, inl, inr, subst, update, ap,
}
use vmtree.Records.{Record}
use vmtree.Mapping.{get_mapping, add_mapping}
use vmtree.Mapping.Count.{add_mapping-IsValid}
use vmtree.Node.{Page, get_count}
use vmtree.Node.Search.{Place}
use vmtree.Node.Leaf.{insert_record}
use vmtree.Storage.{Device, Keeps}
use vmtree.Buffer.{Buffer, inc32, set_free, set_valid, is_free, next_valid_page, write_page_direct}
use vmtree.Buffer.Returns.{IsReady, read_fields}
use vmtree.Buffer.Allocate.{HasPages, next_valid_page-IsWritable}
use vmtree.Tree.{Tree, moving, page_in, with_buffer}
use vmtree.Tree.Put.{put_record, find_leaf, put_at_leaf}
use vmtree.Tree.Shape.{IsLeaf, IsTree, InTree, Within}
use vmtree.Tree.Owned.{View, IsPointer, IsPlace, IsOwned, Linked, view}
use vmtree.Tree.Answers.{IsSound, Has}
use vmtree.Tree.Insert.Grown.{leaf_place, insert_record-Grown}
use vmtree.Tree.Insert.Written.{IsReady-write}
use vmtree.Tree.Grow.Way.{IsWay, Labelled}
use vmtree.Tree.Grow.Replace.{Replaced, IsWay-Replaced}
use vmtree.Tree.Grow.Route.{Finds, find_leaf-Finds}
use vmtree.Tree.Grow.Written.{behind-IsBytes, relabelled, new_view, written-Moves, leaf-Replaced}
use vmtree.Tree.Grow.Run.{Links, update_prev-Links, filled, out, at_leaf}
use vmtree.Tree.Grow.Moved.{same_page}
use vmtree.Tree.Grow.Whole.{IsWhole, is_used}
use vmtree.Tree.Grow.Ends.{Added, at_view, Ends-Added}

module _ {St : Type 0} (d : Device Page St) {has : St → ℕ → Type 0} (keeps : Keeps d has) where
  put_record-found :
      (t t1 : Tree St) (r : Record) (leaf : ℕ)
      → find_leaf d (t.levels - 1) t r.key 0 (t.active_path 0) ≡ some (t1, some leaf)
      → put_record d t r ≡ put_at_leaf d t1 leaf r
  unfolding put_record
  put_record-found t t1 r leaf e = rw (e, put_record) refl

  -- The same, with what the walk is known to find.
  Finds-Added :
      (t t1 : Tree St) (r : Record) (leaf next : ℕ) (p : Page) (b' : Buffer St) (w : IsWhole d t)
      → Finds d t.buffer.storage w.labels
          (is_used d t.buffer)
          t
          (t.levels - 1)
          r.key
          0
          (t.active_path 0)
          0
          none
      → t.algorithm ≡ moving
      → 2 ≤ t.levels
      → HasPages d keeps t.buffer
      → find_leaf d (t.levels - 1) t r.key 0 (t.active_path 0) ≡ some (t1, some leaf)
      → d.read_page t.buffer.storage leaf ≡ some p
      → get_count p < t.geometry.max_records
      → get_count p < 9999
      → next_valid_page d (set_free d t1.buffer leaf) t.table ≡ some (b', next)
      → ((q : ℕ) → (q ≡ leaf) ⊎ (q ≡ p.prev) → (add_mapping t.table q next).1 ≡ true)
      → ((i : ℕ)
          → 1 ≤ i
          → i < t.buffer.num_pages
          → t1.buffer.status i ≢ 0
          → (t1.buffer.status i ≢ next) × has t.buffer.storage (t1.buffer.status i))
      → (t' : Tree St) × (put_record d t r ≡ some (t', true)) × Added d keeps t r t'
  unfolding with_buffer
  Finds-Added t t1 r leaf next p b' w f mov several all walked held space few found room apart =
      let b = read_fields d t.buffer f.after in
      let run : find_leaf d (t.levels - 1) t r.key 0 (t.active_path 0)
          ≡ some (record t { buffer = b; active_path = f.path }, some f.leaf) =
        f.run
        ∙ ap (λ x. some (record t { buffer = x; active_path = f.path }, some f.leaf)) f.rest in
      let both : some (t1, some leaf)
          ≡ some (record t { buffer = b; active_path = f.path }, some f.leaf) =
        sym walked ∙ run in
      let same_leaf : leaf ≡ f.leaf = cc in
      let same_tree : t1 ≡ record t { buffer = b; active_path = f.path } = cc in
      let same_buffer : t1.buffer ≡ b = ap (λ x. x.buffer) same_tree in
      let same_p : p ≡ f.p = same_page (sym held ∙ rw same_leaf f.held) in
      let (pointer, leads) = f.pointer (omega arith) in
      let linked : Linked (at_view d keeps t w) f.q f.leaf = rw leads at pointer.linked in
      let fits : (add_mapping t.table f.q next).1 ≡ true = elim (linked f.p f.held) [
        | inl (e, fresh) ↦ room f.q (inl (e ∙ sym same_leaf))
        | inr (e, small) ↦ room f.q (inr (e ∙ ap (λ (x : Page). x.prev) (sym same_p)))
      ] in
      let (t', put, added) =
        Ends-Added d keeps t w f.after f.path r f.leaf f.q f.low next f.high f.p mov several all
          f.root f.way
          (record {
            ready = subst (λ x. IsReady d x) f.rest f.ready;
            held = f.held;
            is_leaf = f.is_leaf;
            within = f.within;
            place = f.place;
            pointer = pointer;
            leads = leads;
            chosen = b';
            found = rw (same_buffer, same_leaf) at found;
            room = fits;
            few = rw same_p at few;
            space = rw same_p at space;
            apart = rw same_buffer at apart;
          }) in
      (
        t',
        put_record-found t (record t { buffer = b; active_path = f.path }) r f.leaf run ∙ put,
        added,
      )

  -- `vmtreePutRecord`, run as VMTREE, on a whole tree of two levels or more whose leaf for the key,
  -- at `leaf`, has space, so that the page `next`, which `dbbufferNextValidPage` gives once the page
  -- of the leaf is free, is not one of the page buffers, and the mapping table has room for it: the
  -- code returns 0, the tree stays whole, and its records are the records of before and the new one.
  -- (The storage has every page up to the last and those that are buffered, and keeps what is
  -- written; the count is below 9,999; `t1` is the tree after the walk.)
  pub put_record-Added :
      (t t1 : Tree St) (r : Record) (leaf next : ℕ) (p : Page) (b' : Buffer St)
      → IsWhole d t
      → t.algorithm ≡ moving
      → 2 ≤ t.levels
      → HasPages d keeps t.buffer
      → find_leaf d (t.levels - 1) t r.key 0 (t.active_path 0) ≡ some (t1, some leaf)
      → d.read_page t.buffer.storage leaf ≡ some p
      → get_count p < t.geometry.max_records
      → get_count p < 9999
      → next_valid_page d (set_free d t1.buffer leaf) t.table ≡ some (b', next)
      → ((q : ℕ) → (q ≡ leaf) ⊎ (q ≡ p.prev) → (add_mapping t.table q next).1 ≡ true)
      → ((i : ℕ)
          → 1 ≤ i
          → i < t.buffer.num_pages
          → t1.buffer.status i ≢ 0
          → (t1.buffer.status i ≢ next) × has t.buffer.storage (t1.buffer.status i))
      → (t' : Tree St) × (put_record d t r ≡ some (t', true)) × Added d keeps t r t'
  put_record-Added t t1 r leaf next p b' w mov several all walked held space few found room apart =
      let s = w.sound in
      Finds-Added t t1 r leaf next p b' w
        (find_leaf-Finds d t.buffer.storage w.labels (is_used d t.buffer) (t.levels - 1) t r.key 0
          (t.active_path 0) 0 none s.ready refl s.tree w.owned (omega arith, tt) (omega arith))
        mov several all walked held space few found room apart
