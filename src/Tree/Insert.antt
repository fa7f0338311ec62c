-- ===== src/Tree/Insert.antt =====
-- `vmtreePutRecord` in src/vmtree.c on a tree of one level, as an insertion into the set of records.
pub mod Grown
pub mod Written
mod Run
use vmtree.Base.{
  ℕ, zero, suc, ◌+◌, ◌-◌, ◌^◌, ◌≤◌, ◌<◌, ◌≡◌, ◌≢◌, ◌⊎◌, refl, true, none, some, Memory, update, ltb,
  ◌==◌, if◌then◌else◌, arith, inl, inr, Bool-cases, Option-cases, ap, sym, ◌∙◌, subst,
}
use vmtree.Records.{Record}
use vmtree.Node.{Page, Geometry, get_count, is_interior}
use vmtree.Node.Search.{Place, after, search_node, search_leaf}
use vmtree.Node.Search.Found.{Ascends, keys_of, SplitsAt, search_leaf-Finds}
use vmtree.Node.Leaf.{insert_record}
use vmtree.Node.Leaf.Insert.{insert_record-Ascends, insert_record-slot, insert_record-count}
use vmtree.Storage.{Device, Keeps}
use vmtree.Buffer.{
  Buffer, inc32, set_free, set_valid, next_valid_loop, next_valid_page, write_page,
  write_page_direct, read_page_buffer, is_free,
}
use vmtree.Buffer.Returns.{IsReady}
use vmtree.Buffer.Allocate.{HasPages, next_valid_page-IsWritable}
use vmtree.Tree.{Tree, moving, page_in, put_page, with_buffer, set_path}
use vmtree.Tree.Put.{put_record, find_leaf, put_at_leaf, put_in_leaf}
use vmtree.Tree.Shape.{IsLeaf, IsTree, InTree, InTree-leaf}
use vmtree.Tree.Answers.{IsSound, Has}
use vmtree.Tree.Insert.Grown.{leaf_place, insert_record-Grown}
use vmtree.Tree.Insert.Written.{root-IsLeaf, root-IsTree, root-Has, IsReady-write}
use vmtree.Tree.Insert.Run.{out, put_run, same_buffer}

module _ {St : Type 0} (d : Device Page St) {has : St → ℕ → Type 0} (keeps : Keeps d has) where
  -- `vmtreePutRecord`, run as VMTREE, on a sound tree of one level whose root page has space, so
  -- that the page `next`, which `dbbufferNextValidPage` gives once the page of the root is free,
  -- is not one of the page buffers: the code returns 0, the tree stays sound, and its records are
  -- the records of before and the new one. (The storage has every page up to the last and those
  -- that are buffered, and keeps what is written; the count is below 9,999.)
  pub put_record-inserts :
      (t : Tree St) (r : Record) (p : Page) (b' : Buffer St) (next : ℕ)
      → IsSound d t
      → t.algorithm ≡ moving
      → t.levels ≡ 1
      → HasPages d keeps t.buffer
      → d.read_page t.buffer.storage (t.active_path 0) ≡ some p
      → get_count p < t.geometry.max_records
      → get_count p < 9999
      → next_valid_page d (set_free d t.buffer (t.active_path 0)) t.table ≡ some (b', next)
      → ((i : ℕ)
          → 1 ≤ i
          → i < t.buffer.num_pages
          → t.buffer.status i ≢ 0
          → (t.buffer.status i ≢ next) × has t.buffer.storage (t.buffer.status i))
      → (t' : Tree St) × (put_record d t r ≡ some (t', true))
        × IsSound d t'
        × ((x : Record) → Has d t x → Has d t' x)
        × Has d t' r
        × ((x : Record) → Has d t' x → Has d t x ⊎ (x ≡ r))
  unfolding set_free set_path with_buffer write_page_direct set_valid
  put_record-inserts t r p b' next s mov one all held room few found apart =
      let leaf = root-IsLeaf d t p one held s.tree in
      let (place, run, splits) = leaf_place p r.key leaf.sorted in
      let grown = insert_record-Grown p place r 0 none leaf (omega arith, tt) splits few in
      let writable =
        (next_valid_page-IsWritable d (set_free d t.buffer (t.active_path 0)) t.table).0 b' next
          found in
      let there = all next writable.0.exists in
      let written =
        keeps.same t.buffer.storage next
          (record (insert_record p place r) { id = t.buffer.next_page_id }) there in
      let before = λ (x : Record). root-Has d t p x one held in
      let after_put = λ (x : Record).
        root-Has d (out d t r p place next)
          (record (insert_record p place r) { id = t.buffer.next_page_id }) x one written in
      (
        out d t r p place next,
        put_run d t r p place b' next mov one held room run found,
        record {
          ready =
              IsReady-write d keeps (set_free d t.buffer (t.active_path 0))
                (update (update t.buffer.buffers 0 p) 0 (insert_record p place r))
                (inc32 t.buffer.num_reads) next next
                (record {
                  coherent = record {
                    agrees = s.ready.coherent.agrees;
                    once = s.ready.coherent.once;
                  };
                  pages = s.ready.pages;
                  next = s.ready.next;
                })
                (λ i h. same_buffer d t.buffer.buffers p (insert_record p place r) i h) there apart;
          some_levels = s.some_levels;
          tree =
              root-IsTree d (out d t r p place next)
                (record (insert_record p place r) { id = t.buffer.next_page_id }) one written
                (record {
                  flat = grown.leaf.flat;
                  sorted = grown.leaf.sorted;
                  inside = grown.leaf.inside;
                });
        },
        λ x inn. (after_put x).1 (grown.old x ((before x).0 inn)),
        (after_put r).1 grown.new,
        λ x inn. elim (grown.only x ((after_put x).0 inn)) [
          | inl o ↦ inl ((before x).1 o)
          | inr e ↦ inr e
        ],
      )
