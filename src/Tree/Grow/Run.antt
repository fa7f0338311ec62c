-- ===== src/Tree/Grow/Run.antt =====
-- `vmtreePutRecord` of src/vmtree.c at a leaf with space below the root, step by step.
use vmtree.Base.{
  ℕ, ◌-◌, ◌≤◌, ◌<◌, ◌≡◌, ◌≢◌, ◌⊎◌, refl, true, false, ◌||◌, not, Option, none, some, Memory, update,
  ltb, leb, ◌==◌, if◌then◌else◌, arith, ◌∙◌, ap, Bool-cases, inl, inr,
}
use vmtree.Records.{Record}
use vmtree.Mapping.{get_mapping, add_mapping}
use vmtree.Node.{Page, Geometry, get_count, is_interior, prev_id_constant, set_prev}
use vmtree.Node.Search.{Place, search_node, search_leaf}
use vmtree.Node.Leaf.{insert_record}
use vmtree.Storage.{Device}
use vmtree.Buffer.{
  Buffer, inc32, set_free, next_valid_page, write_page, write_page_direct, read_page_buffer,
}
use vmtree.Tree.{Tree, moving, page_in, put_page, with_buffer, set_path}
use vmtree.Tree.Mapped.{update_prev, fix_mappings}
use vmtree.Tree.Put.{put_at_leaf, put_in_leaf}
use vmtree.Tree.Leaf.{fix_mappings-adds}
use vmtree.Tree.Insert.Written.{write_page-buffers}

module _ {St : Type 0} (d : Device Page St) where
  -- What `vmtreeUpdatePrev` does to the page in page buffer 0: pointer `q` is its previous page.
  pub record Links (t : Tree St) (page q : ℕ) : Type 0 where
    pub cells : Memory Page
    pub run :
        update_prev d t 0 page ≡ (record t { buffer = record t.buffer { buffers = cells } }, q)
    pub here : cells 0 ≡ record (page_in t 0) { prev = q }
    pub others : (i : ℕ) → 1 ≤ i → cells i ≡ t.buffer.buffers i

  pub update_prev-Links :
      (t : Tree St) (page q : ℕ)
      → get_mapping t.table q ≡ page
      → ((q ≡ page)
          × ((prev_id_constant ≤ (page_in t 0).prev)
              ⊎ (get_mapping t.table (page_in t 0).prev ≢ page)))
        ⊎ ((q ≡ (page_in t 0).prev) × (q < prev_id_constant))
      → Links t page q
  unfolding update_prev put_page page_in
  update_prev-Links t page q leads known =
      elim (Bool-cases (
        leb prev_id_constant (page_in t 0).prev
        || not (get_mapping t.table (page_in t 0).prev == page))) [
          | inl fresh ↦
              let same : q ≡ page = ground arith in
              record {
                cells = update t.buffer.buffers 0 (set_prev (page_in t 0) page);
                run = rw (fresh, update_prev, same) refl;
                here = rw same refl;
                others = λ i h. ground arith;
              }
          | inr old ↦
              let same : q ≡ (page_in t 0).prev = ground arith in
              record {
                cells = t.buffer.buffers;
                run = rw (old, update_prev, same) refl;
                here = rw same refl;
                others = λ i h. refl;
              }
        ]

  -- The tree with the leaf in page buffer 0, and with the record in it and the leaf set free.
  abbrev pub loaded : Tree St → (leaf : ℕ) → Page → Tree St
  loaded t leaf p = record t {
    buffer = record t.buffer {
      buffers = update t.buffer.buffers 0 p;
      num_reads = inc32 t.buffer.num_reads;
    };
    node_split_id = leaf;
  }

  abbrev pub filled : Tree St → (leaf : ℕ) → Page → Place → Record → Tree St
  filled t leaf p place r = record t {
    buffer = record (set_free d t.buffer leaf) {
      buffers = update (update t.buffer.buffers 0 p) 0 (insert_record p place r);
      num_reads = inc32 t.buffer.num_reads;
    };
    node_split_id = leaf;
  }

  -- The tree after it: the leaf is at `next`, and `q` leads there.
  abbrev pub out : Tree St → (leaf next q : ℕ) → Memory Page → Tree St
  out t leaf next q cells = record t {
    buffer =
        write_page_direct d
          (record (set_free d t.buffer leaf) {
            buffers = cells;
            num_reads = inc32 t.buffer.num_reads;
            next_page_write_id = next;
          })
          0 next;
    node_split_id = leaf;
    table = (add_mapping t.table q next).0;
  }

  -- `put_in_leaf` from `vmtreeUpdatePrev` on.
  abbrev from_links : Tree St × ℕ → Option (Tree St)
  from_links (t, prev) = elim (write_page d t.buffer t.table 0) [
    | none ↦ none
    | some (b, next) ↦ fix_mappings d (t.levels - 1) (with_buffer t b) prev next
  ]

  in_leaf-from_links :
      (t : Tree St) (leaf : ℕ) (p : Page) (place : Place) (r : Record)
      → t.algorithm ≡ moving
      → 2 ≤ t.levels
      → put_in_leaf d (loaded t leaf p) leaf place r
        ≡ from_links (update_prev d (filled t leaf p place r) 0 leaf)
  unfolding put_in_leaf page_in put_page with_buffer set_path set_free
  in_leaf-from_links t leaf p place r mov several =
      let inner : (t.levels == 1) ≡ false = ground arith in ground (arith, mov, inner)

  in_leaf :
      (t : Tree St) (leaf q next : ℕ) (p : Page) (place : Place) (r : Record) (b' : Buffer St)
      → t.algorithm ≡ moving
      → 2 ≤ t.levels
      → (w : Links (filled t leaf p place r) leaf q)
      → next_valid_page d (set_free d t.buffer leaf) t.table ≡ some (b', next)
      → (add_mapping t.table q next).1 ≡ true
      → put_in_leaf d (loaded t leaf p) leaf place r ≡ some (out t leaf next q w.cells)
  unfolding with_buffer set_free
  in_leaf t leaf q next p place r b' mov several w found room =
      let wrote =
        write_page-buffers d (set_free d t.buffer leaf) b' w.cells (inc32 t.buffer.num_reads) next t
          found in
      let written : Tree St = record (out t leaf next q w.cells) { table = t.table } in
      let after_write = λ (x : Option (Buffer St × ℕ)). elim x as (λ z. Option (Tree St)) [
        | none ↦ none
        | some (b, n) ↦ fix_mappings d (t.levels - 1) (record written { buffer = b }) q n
      ] in
      in_leaf-from_links t leaf p place r mov several
      ∙ ap from_links w.run
      ∙ ap after_write wrote
      ∙ fix_mappings-adds d written (t.levels - 1) q next room

  leaf_search :
      (g : Geometry) (levels : ℕ) (p : Page) (key : ℕ)
      → is_interior p ≡ false
      → search_node g levels p key true ≡ search_leaf p key true
  unfolding search_node
  leaf_search g levels p key flat = rw (flat, search_node) refl

  pub at_leaf :
      (t : Tree St) (leaf q next : ℕ) (p : Page) (place : Place) (r : Record) (b' : Buffer St)
      → t.algorithm ≡ moving
      → 2 ≤ t.levels
      → d.read_page t.buffer.storage leaf ≡ some p
      → is_interior p ≡ false
      → get_count p < t.geometry.max_records
      → (if get_count p == 0 then some none else search_leaf p r.key true) ≡ some place
      → (w : Links (filled t leaf p place r) leaf q)
      → next_valid_page d (set_free d t.buffer leaf) t.table ≡ some (b', next)
      → (add_mapping t.table q next).1 ≡ true
      → put_at_leaf d t leaf r ≡ some (out t leaf next q w.cells, true)
  unfolding put_at_leaf read_page_buffer with_buffer page_in
  at_leaf t leaf q next p place r b' mov several held flat space run w found room =
      let fits : ltb (get_count p) t.geometry.max_records ≡ true = ground arith in
      let put = in_leaf t leaf q next p place r b' mov several w found room in
      let read : read_page_buffer d t.buffer leaf 0 ≡ ((loaded t leaf p).buffer, true) =
        rw (held, read_page_buffer) refl in
      let place_run : (if get_count p == 0
            then some none
            else search_node t.geometry t.levels p r.key true)
          ≡ some place =
        rw (leaf_search t.geometry t.levels p r.key flat) run in
      rw (read, put_at_leaf) (ground (arith, place_run, fits, put))
