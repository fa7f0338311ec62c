-- ===== src/Nor/Put/Append.antt =====
-- A leaf of OVERWRITE with an empty location, in `vmtreePutNorOverwrite` of src/vmtree.c.
use vmtree.Base.{
  ℕ, zero, suc, ◌+◌, ◌-◌, ◌/◌, length, ◌<◌, ◌≡◌, ◌≢◌, refl, true, none, some, update, ◌==◌, arith,
  Option-cases, Bool-cases, inl, inr, ◌∙◌, sym, ap,
}
use vmtree.BitArr.{bitarr_get, bitarr_set}
use vmtree.BitArr.Laws.{bitarr_set-IsBytes, bitarr_get-bitarr_set}
use vmtree.Records.{Record}
use vmtree.Node.{Page}
use vmtree.Storage.{Device, Keeps}
use vmtree.Buffer.{Buffer, inc32, find_buffer, read_page_buffer, overwrite_page}
use vmtree.Tree.{Tree, page_in, put_page, with_buffer}
use vmtree.Nor.{NorPage, NorGeometry, leaf_limit, is_live, is_empty, write_slot}
use vmtree.Nor.Bits.{HasBitmaps}
use vmtree.Nor.Leaf.{empty_loop, append_record}
use vmtree.Nor.Put.{put_at_leaf_nor}

empty_loop-finds :
    (rounds : ℕ) (p : NorPage) (c : ℕ) {i : ℕ}
    → empty_loop rounds p c ≡ some i
    → (i < c + rounds) × (is_empty p i ≡ true)
unfolding empty_loop
empty_loop-finds zero p c e = cc
empty_loop-finds (suc rounds) p c {i = i} e = elim (Bool-cases (is_empty p c)) [
  | inl free ↦
      let both : some c ≡ some i = rw (free, empty_loop) at e in
      let same : c ≡ i = cc in (omega (arith, same), rw (← same) free)
  | inr taken ↦ ground (arith, taken, empty_loop-finds rounds p (c + 1) {i = i})
]

-- A record in a location that was empty, and all else as it was.
pub record Appended (limit : ℕ) (p q : NorPage) (key value : ℕ) : Type 0 where
  pub loc : ℕ
  pub inside : loc < limit
  pub was_empty : is_empty p loc ≡ true
  pub live : is_live q loc ≡ true
  pub has_key : q.keys loc ≡ key
  pub has_value : q.values loc ≡ value
  pub others :
      (j : ℕ)
      → j < limit
      → j ≢ loc
      → (is_live q j ≡ is_live p j) × (q.keys j ≡ p.keys j) × (q.values j ≡ p.values j)

pub append_record-Appended :
    (g : NorGeometry) (p : NorPage) (key value : ℕ) {q : NorPage}
    → HasBitmaps (leaf_limit g) p
    → ((i : ℕ) → i < leaf_limit g → is_empty p i ≡ true → bitarr_get p.bm2 i ≡ 1)
    → append_record g p key value ≡ some q
    → Appended (leaf_limit g) p q key value
unfolding append_record write_slot
append_record-Appended g p key value {q = q} maps valid e =
    elim (Option-cases (empty_loop (leaf_limit g) p 0)) [
      | inl none_left ↦ (let bad : none ≡ some q = rw (none_left, append_record) at e in absurd cc)
      | inr (i, found) ↦
          let (lt, free) = empty_loop-finds (leaf_limit g) p 0 found in
          let put : NorPage = record p {
            bm1 = bitarr_set p.bm1 i 0;
            keys = update p.keys i key;
            values = update p.values i value;
          } in
          let both : some put ≡ some q = rw (found, append_record, write_slot) at e in
          let same : put ≡ q = cc in
          let bit = λ (j : ℕ).
            bitarr_get-bitarr_set p.bm1 i j 0 (omega (arith, lt, maps.room1)) maps.bytes1 in
          rw (← same) (record {
            loc = i;
            inside = omega (arith, lt);
            was_empty = free;
            live = ground (arith, bit i, valid i, lt, free);
            has_key = ground arith;
            has_value = ground arith;
            others = λ j h ne. (ground (arith, bit j, ne), ground (arith, ne), ground (arith, ne));
          })
    ]

-- The bitmaps have their bits, and every empty location is marked as valid.
pub record IsFillable (limit : ℕ) (p : NorPage) : Type 0 where
  pub maps : HasBitmaps limit p
  pub valid : (i : ℕ) → i < limit → is_empty p i ≡ true → bitarr_get p.bm2 i ≡ 1

pub append_record-IsFillable :
    (g : NorGeometry) (p : NorPage) (key value : ℕ) {q : NorPage}
    → IsFillable (leaf_limit g) p
    → append_record g p key value ≡ some q
    → IsFillable (leaf_limit g) q
unfolding append_record write_slot
append_record-IsFillable g p key value {q = q} ready e =
    elim (Option-cases (empty_loop (leaf_limit g) p 0)) [
      | inl none_left ↦ (let bad : none ≡ some q = rw (none_left, append_record) at e in absurd cc)
      | inr (i, found) ↦
          let (lt, free) = empty_loop-finds (leaf_limit g) p 0 found in
          let put : NorPage = record p {
            bm1 = bitarr_set p.bm1 i 0;
            keys = update p.keys i key;
            values = update p.values i value;
          } in
          let both : some put ≡ some q = rw (found, append_record, write_slot) at e in
          let same : put ≡ q = cc in
          let maps = ready.maps in
          let room : i / 8 < length p.bm1 = omega (arith, lt, maps.room1) in
          let one = bitarr_set-IsBytes p.bm1 i 0 room maps.bytes1 in
          let bit = λ (j : ℕ). bitarr_get-bitarr_set p.bm1 i j 0 room maps.bytes1 in
          rw (← same) (record {
            maps = record {
              bytes1 = one.0;
              bytes2 = maps.bytes2;
              room1 = omega (arith, one.1, maps.room1);
              room2 = maps.room2;
            };
            valid = λ j h e. ground (arith, bit j, ready.valid j, h, e);
          })
    ]

module _ {St : Type 0} (d : Device Page St) where
  -- `overWritePage` writes the page buffer to the storage, whether or not the page is buffered, and
  -- leaves the bits of the free pages and the last data page.
  pub overwrite_page-storage :
      (b : Buffer St) (slot page : ℕ)
      → ((overwrite_page d b slot page).storage ≡ (d.write_page b.storage page (b.buffers slot)).0)
        × ((overwrite_page d b slot page).free_pages ≡ b.free_pages)
        × ((overwrite_page d b slot page).end_data_page ≡ b.end_data_page)
  unfolding overwrite_page
  overwrite_page-storage b slot page =
      elim (Option-cases (find_buffer (b.num_pages - 1) b.status page 1)) [
        | inl miss ↦ (
          rw (miss, overwrite_page) refl,
          rw (miss, overwrite_page) refl,
          rw (miss, overwrite_page) refl,
        )
        | inr (i, hit) ↦ elim (Bool-cases (i == slot)) [
          | inl same ↦ (
            rw (hit, overwrite_page, same) refl,
            rw (hit, overwrite_page, same) refl,
            rw (hit, overwrite_page, same) refl,
          )
          | inr other ↦ (
            rw (hit, overwrite_page, other) refl,
            rw (hit, overwrite_page, other) refl,
            rw (hit, overwrite_page, other) refl,
          )
        ]
      ]

  -- The tree with the leaf in page buffer 0, and with the record appended there and written.
  abbrev pub filled : Tree St → Page → Tree St
  filled t p = record t {
    buffer = record t.buffer {
      buffers = update t.buffer.buffers 0 p;
      num_reads = inc32 t.buffer.num_reads;
    };
  }

  module _ {has : St → ℕ → Type 0} (keeps : Keeps d has) where
    -- `vmtreePutNorOverwrite` at a leaf that the storage holds at `page`, with an empty location:
    -- the code returns 0, the storage then holds the leaf with the record in a location that was
    -- empty and all other locations as they were, and every other page is as it was. (The storage
    -- has the pages and keeps what is written, the bitmaps have their bits, and an empty
    -- location is marked as valid.)
    pub put_at_leaf_nor-appends :
        (g : NorGeometry) (t : Tree St) (page : ℕ) (r : Record) (p : Page) {n : NorPage}
        → d.read_page t.buffer.storage page ≡ some p
        → has t.buffer.storage page
        → HasBitmaps (leaf_limit g) p.nor
        → ((i : ℕ) → i < leaf_limit g → is_empty p.nor i ≡ true → bitarr_get p.nor.bm2 i ≡ 1)
        → append_record g p.nor r.key r.value ≡ some n
        → (t' : Tree St) × (put_at_leaf_nor d g t page r ≡ some (t', true))
          × (d.read_page t'.buffer.storage page ≡ some (record p { nor = n }))
          × Appended (leaf_limit g) p.nor n r.key r.value
          × ((m : ℕ)
              → has t.buffer.storage m
              → m ≢ page
              → d.read_page t'.buffer.storage m ≡ d.read_page t.buffer.storage m)
    unfolding put_at_leaf_nor read_page_buffer with_buffer page_in put_page
    put_at_leaf_nor-appends g t page r p {n = n} held there maps valid e =
        let read : read_page_buffer d t.buffer page 0 ≡ ((filled t p).buffer, true) =
          rw (held, read_page_buffer) refl in
        let b = (put_page (filled t p) 0 (record p { nor = n })).buffer in
        let s = (overwrite_page-storage b 0 page).0 in
        (
          with_buffer (filled t p) (overwrite_page d b 0 page),
          rw (read, put_at_leaf_nor) (ground (arith, e)),
          ap (λ x. d.read_page x page) s
              ∙ keeps.same t.buffer.storage page (record p { nor = n }) there,
          append_record-Appended g p.nor r.key r.value maps valid e,
          λ m h ne.
              ap (λ x. d.read_page x m) s
              ∙ keeps.other t.buffer.storage page m (record p { nor = n }) there h
                  (λ e. ne (sym e)),
        )
