-- ===== src/Tree/Insert/Run.antt =====
-- `vmtreePutRecord` of src/vmtree.c, step by step, on a tree of one level with space.
use vmtree.Base.{
  ℕ, ◌-◌, ◌≤◌, ◌<◌, ◌≡◌, refl, true, none, some, Memory, update, ltb, ◌==◌, if◌then◌else◌, arith,
  inl, inr, Option-cases, sym, ◌∙◌,
}
use vmtree.Records.{Record}
use vmtree.Node.{Page, get_count}
use vmtree.Node.Search.{Place, search_node, search_leaf}
use vmtree.Node.Leaf.{insert_record}
use vmtree.Storage.{Device}
use vmtree.Buffer.{Buffer, inc32, set_free, next_valid_page, write_page_direct, read_page_buffer}
use vmtree.Tree.{Tree, moving, page_in, put_page, with_buffer, set_path}
use vmtree.Tree.Put.{put_record, find_leaf, put_at_leaf, put_in_leaf}
use vmtree.Tree.Insert.Grown.{leaf_search}
use vmtree.Tree.Insert.Written.{write_page-buffers}

module _ {St : Type 0} (d : Device Page St) where
  -- the tree after it
  abbrev pub out : Tree St → Record → Page → Place → ℕ → Tree St
  out t r p place next =
      let b : Buffer St = set_free d t.buffer (t.active_path 0) in
      let c = update (update t.buffer.buffers 0 p) 0 (insert_record p place r) in
      let b1 : Buffer St = record b {
        buffers = c;
        num_reads = inc32 b.num_reads;
        next_page_write_id = next;
      } in
      set_path
        (record (with_buffer t (write_page_direct d b1 0 next)) { node_split_id = t.active_path 0 })
        0 next

  pub same_buffer :
      (m : Memory Page) (p q : Page) (i : ℕ) → 1 ≤ i → m i ≡ update (update m 0 p) 0 q i
  same_buffer m p q i h = ground arith

  -- the tree with the root page in page buffer 0
  abbrev loaded : Tree St → Page → Tree St
  loaded t p = record t {
    buffer = record t.buffer {
      buffers = update t.buffer.buffers 0 p;
      num_reads = inc32 t.buffer.num_reads;
    };
    node_split_id = t.active_path 0;
  }

  walked :
      (t : Tree St) (r : Record)
      → t.levels ≡ 1
      → find_leaf d (t.levels - 1) t r.key 0 (t.active_path 0) ≡ some (t, some (t.active_path 0))
  unfolding find_leaf
  walked t r one = rw one refl

  in_leaf :
      (t : Tree St) (r : Record) (p : Page) (place : Place) (b' : Buffer St) (next : ℕ)
      → t.algorithm ≡ moving
      → t.levels ≡ 1
      → next_valid_page d (set_free d t.buffer (t.active_path 0)) t.table ≡ some (b', next)
      → put_in_leaf d (loaded t p) (t.active_path 0) place r ≡ some (out t r p place next)
  unfolding put_in_leaf page_in put_page with_buffer set_path set_free
  in_leaf t r p place b' next mov one found =
      let c = update (update t.buffer.buffers 0 p) 0 (insert_record p place r) in
      let wrote =
        write_page-buffers d (set_free d t.buffer (t.active_path 0)) b' c (inc32 t.buffer.num_reads)
          next t found in
      elim (Option-cases (put_in_leaf d (loaded t p) (t.active_path 0) place r)) [
        | inl e ↦
            (let bad : some (out t r p place next) ≡ none =
                rw (mov, one, wrote, put_in_leaf) at e in
              absurd cc)
        | inr (t', e) ↦
            let both : some (out t r p place next) ≡ some t' =
              rw (mov, one, wrote, put_in_leaf) at e in
            e ∙ sym both
      ]

  at_leaf :
      (t : Tree St) (r : Record) (p : Page) (place : Place) (b' : Buffer St) (next : ℕ)
      → t.algorithm ≡ moving
      → t.levels ≡ 1
      → d.read_page t.buffer.storage (t.active_path 0) ≡ some p
      → get_count p < t.geometry.max_records
      → (if get_count p == 0 then some none else search_leaf p r.key true) ≡ some place
      → next_valid_page d (set_free d t.buffer (t.active_path 0)) t.table ≡ some (b', next)
      → put_at_leaf d t (t.active_path 0) r ≡ some (out t r p place next, true)
  unfolding put_at_leaf read_page_buffer search_node with_buffer page_in
  at_leaf t r p place b' next mov one held room run found =
      let fits : ltb (get_count p) t.geometry.max_records ≡ true = ground arith in
      let put = in_leaf t r p place b' next mov one found in
      let read : read_page_buffer d t.buffer (t.active_path 0) 0 ≡ ((loaded t p).buffer, true) =
        rw (held, read_page_buffer) refl in
      let place_run : (if get_count p == 0
            then some none
            else search_node t.geometry t.levels p r.key true)
          ≡ some place =
        rw (leaf_search t.geometry t.levels p r.key one) run in
      rw (read, put_at_leaf) (ground (arith, place_run, fits, put))

  pub put_run :
      (t : Tree St) (r : Record) (p : Page) (place : Place) (b' : Buffer St) (next : ℕ)
      → t.algorithm ≡ moving
      → t.levels ≡ 1
      → d.read_page t.buffer.storage (t.active_path 0) ≡ some p
      → get_count p < t.geometry.max_records
      → (if get_count p == 0 then some none else search_leaf p r.key true) ≡ some place
      → next_valid_page d (set_free d t.buffer (t.active_path 0)) t.table ≡ some (b', next)
      → put_record d t r ≡ some (out t r p place next, true)
  unfolding put_record
  put_run t r p place b' next mov one held room run found =
      rw (walked t r one, at_leaf t r p place b' next mov one held room run found, put_record) refl
