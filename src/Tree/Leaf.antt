-- ===== src/Tree/Leaf.antt =====
-- `vmtreePutRecord` on a leaf with space, through the page buffers and the storage.
use vmtree.Base.{
  ℕ, zero, suc, ◌-◌, ◌^◌, ◌≤◌, ◌<◌, ◌≡◌, ◌≢◌, ◌⊎◌, refl, true, ◌||◌, not, none, some, update, leb,
  ◌==◌, arith, Option-cases, inl, inr, Bool-cases, ◌∙◌, insert_at,
}
use vmtree.Records.{Record}
use vmtree.Mapping.{get_mapping, add_mapping, empty_mapping}
use vmtree.Mapping.Count.{IsValid}
use vmtree.Mapping.Laws.{get_mapping-add_mapping}
use vmtree.Node.{Page, get_count, prev_id_constant}
use vmtree.Node.Search.{Place, after}
use vmtree.Node.Leaf.{insert_record}
use vmtree.Node.Leaf.Insert.{contents, insert_record-contents}
use vmtree.Storage.{Device, Keeps}
use vmtree.Buffer.{set_free, write_page}
use vmtree.Buffer.Allocate.{
  IsWritable, IsWritable-buffers, HasPages, write_page-returns, write_page-writes,
}
use vmtree.Tree.{Tree, moving, page_in, put_page, with_buffer, set_path}
use vmtree.Tree.Mapped.{update_prev, fix_mappings}
use vmtree.Tree.Put.{put_in_leaf}

module _ {St : Type 0} (d : Device Page St) {has : St → ℕ → Type 0} (keeps : Keeps d has) where
  -- A record put at a place of a leaf with space that is the root of a tree of one level, run as
  -- VMTREE, where some page may be written once the page of the root is free: the code returns, the
  -- page that becomes the root holds in the storage the records of the leaf in page buffer 0 with
  -- the new one at its place, and no other page of the storage changes. (The storage has every page
  -- up to the last and keeps what is written; the count is below 9,999 and its field does not
  -- overflow.)
  pub put_in_leaf-root :
      (t : Tree St) (page q : ℕ) (place : Place) (r : Record)
      → HasPages d keeps t.buffer
      → t.algorithm ≡ moving
      → t.levels ≡ 1
      → after place ≤ get_count (page_in t 0)
      → get_count (page_in t 0) < 9999
      → (page_in t 0).count_field < 2 ^ 16 - 1
      → IsWritable d (set_free d t.buffer page) t.table q
      → (t' : Tree St) × (put_in_leaf d t page place r ≡ some t')
        × ((p : Page) × (d.read_page t'.buffer.storage (t'.active_path 0) ≡ some p)
            × (contents p ≡ insert_at (after place) r (contents (page_in t 0))))
        × ((m : ℕ)
            → m ≤ t.buffer.end_data_page
            → m ≢ t'.active_path 0
            → d.read_page t'.buffer.storage m ≡ d.read_page t.buffer.storage m)
  unfolding put_in_leaf page_in put_page with_buffer set_path set_free
  put_in_leaf-root t page q place r all mov one h k f free =
      let new = insert_record (t.buffer.buffers 0) place r in
      let c = update t.buffer.buffers 0 new in
      let b = set_free d (record t.buffer { buffers = c }) page in
      let free' : IsWritable d b t.table q =
        IsWritable-buffers d (set_free d t.buffer page) t.table c free in
      elim (Option-cases (write_page d b t.table 0)) [
        | inl stuck ↦ absurd (write_page-returns d keeps b t.table 0 q free' stuck)
        | inr ((b', next), found) ↦
            let w = write_page-writes d keeps b b' t.table 0 next all found in
            let out : Tree St = set_path (with_buffer t b') 0 next in
            elim (Option-cases (put_in_leaf d t page place r)) [
              | inl e ↦
                  (let bad : some out ≡ none = rw (mov, one, found, put_in_leaf) at e in absurd cc)
              | inr (t', e) ↦
                  let both : some out ≡ some t' = rw (mov, one, found, put_in_leaf) at e in
                  let put : out ≡ t' = cc in
                  let written = (insert_record-contents (t.buffer.buffers 0) place r h k f).0 in
                  (
                    t',
                    e,
                    rw (← put) (record new { id = t.buffer.next_page_id }, w.1, written),
                    rw (← put) (w.2),
                  )
            ]
      ]

module _ {St : Type 0} (d : Device Page St) where
  update_prev-picks :
      (t : Tree St) (slot page q : ℕ)
      → get_mapping t.table q ≡ page
      → ((q ≡ page) × (prev_id_constant ≤ (page_in t slot).prev))
        ⊎ ((q ≡ (page_in t slot).prev) × (q < prev_id_constant))
      → ((update_prev d t slot page).1 ≡ q) × ((update_prev d t slot page).0.table ≡ t.table)
  unfolding update_prev put_page
  update_prev-picks t slot page q leads known =
      elim (Bool-cases (
        leb prev_id_constant (page_in t slot).prev
        || not (get_mapping t.table (page_in t slot).prev == page))) [
          | inl fresh ↦ rw (fresh, update_prev) (ground arith, refl)
          | inr old ↦ rw (old, update_prev) (ground arith, refl)
        ]

  pub fix_mappings-adds :
      (t : Tree St) (left prev curr : ℕ)
      → (add_mapping t.table prev curr).1 ≡ true
      → fix_mappings d left t prev curr
        ≡ some (record t { table = (add_mapping t.table prev curr).0 })
  unfolding fix_mappings
  fix_mappings-adds t zero prev curr room = refl
  fix_mappings-adds t (suc left) prev curr room = rw (room, fix_mappings) refl

  -- The parent of a node points to page `q`, which leads to the node's page `page`: `q` is that
  -- page, where the header has no previous page, or the previous page in the header. When the node
  -- is written to `next`, a 16-bit number, with the mapping that `vmtreeUpdatePrev` chose, and the
  -- valid table has room for it, then `vmtreeFixMappings` returns and `q` leads to `next`.
  pub fix_mappings-follows :
      (t : Tree St) (left slot page next q : ℕ)
      → IsValid t.table
      → q < empty_mapping
      → next < 2 ^ 16
      → get_mapping t.table q ≡ page
      → ((q ≡ page) × (prev_id_constant ≤ (page_in t slot).prev))
        ⊎ ((q ≡ (page_in t slot).prev) × (q < prev_id_constant))
      → (add_mapping t.table (update_prev d t slot page).1 next).1 ≡ true
      → (t' : Tree St) × (fix_mappings d left
            (update_prev d t slot page).0
            (update_prev d t slot page).1
            next
          ≡ some t')
        × (get_mapping t'.table q ≡ next)
  fix_mappings-follows t left slot page next q v small fits leads known room =
      let t1 = (update_prev d t slot page).0 in
      let prev = (update_prev d t slot page).1 in
      let picks = update_prev-picks t slot page q leads known in
      let added : (add_mapping t.table q next).1 ≡ true = rw (picks.0) at room in
      let table : (add_mapping t1.table prev next).0 ≡ (add_mapping t.table q next).0 =
        rw (picks.1, picks.0) refl in
      (
        record t1 { table = (add_mapping t1.table prev next).0 },
        fix_mappings-adds t1 left prev next (rw (picks.1) room),
        rw table (get_mapping-add_mapping q next q v small small fits added ∙ ground arith),
      )
