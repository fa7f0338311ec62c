-- ===== src/Nor.antt =====
-- The pages of OVERWRITE in src/vmtree.c, for memory where a page is written again: the layout with
-- bitmaps, and the operations on one page in main memory. Records are not in order in a page, and
-- are replaced by clearing bits.
pub mod Bits
pub mod Interior
pub mod Next
pub mod Insert
pub mod Routes
pub mod Sorted
pub mod Compact
pub mod Leaf
pub mod Print
pub mod Put
pub mod Batch
pub mod Get
use vmtree.Base.{
  ℕ, zero, suc, ◌+◌, ◌-◌, ◌*◌, ◌/◌, ◌%◌, ◌^◌, Bool, true, false, ◌&&◌, Option, none, some, Memory,
  min, update, move, ltb, leb, ◌==◌, if◌then◌else◌,
}
use vmtree.BitArr.{BitArr, bitarr_get, bitarr_set}
use vmtree.Records.{Record}
pub use vmtree.Node.{NorPage}

-- The sizes that `vmtreeInit` computes for OVERWRITE.
pub record NorGeometry : Type 0 where
  pub header_size : ℕ
  pub max_records : ℕ
  pub bitmap_size : ℕ
  pub interior_header_size : ℕ
  pub max_interior : ℕ
  pub interior_bitmap_size : ℕ

-- `ceil(n / 8.0)`
abbrev pub ceil8 : ℕ → ℕ
ceil8 n = (n + 7) / 8

-- The sizes in bytes are `uint8_t`, the numbers of records `uint16_t`.
unfoldable pub nor_geometry : (page_size key_size data_size : ℕ) → NorGeometry
nor_geometry page_size key_size data_size =
    let record_size = (key_size + data_size) % 2 ^ 8 in
    let max_records = (page_size - 12) * 8 / (record_size * 8 + 2) % 2 ^ 16 in
    let bitmap_size = ceil8 max_records % 2 ^ 8 in
    let header_size = (10 + 2 * bitmap_size) % 2 ^ 8 in
    let max_interior = (page_size - header_size - 4) * 8 / ((key_size + 4) * 8 + 2) % 2 ^ 16 in
    let interior_bitmap_size = ceil8 max_interior % 2 ^ 8 in
    record {
      header_size = header_size;
      max_records = max_records;
      bitmap_size = bitmap_size;
      interior_header_size = (10 + 2 * interior_bitmap_size) % 2 ^ 8;
      max_interior = max_interior;
      interior_bitmap_size = interior_bitmap_size;
    }

-- The bound of the loops over a page: `c < bitmapSize*8 && c < maxRecordsPerPage`.
abbrev pub leaf_limit : NorGeometry → ℕ
leaf_limit g = min (g.bitmap_size * 8) g.max_records

abbrev pub interior_limit : NorGeometry → ℕ
interior_limit g = min (g.interior_bitmap_size * 8) g.max_interior

-- A location that is taken, and has a valid record.
abbrev pub is_live : NorPage → ℕ → Bool
is_live p c = bitarr_get p.bm1 c == 0 && bitarr_get p.bm2 c == 1

abbrev pub is_empty : NorPage → ℕ → Bool
is_empty p c = bitarr_get p.bm1 c == 1

-- The loops of `vmtreeSetCountBitsLeaf` and `vmtreeSetCountBitsInterior`: `rounds` bits from `c` on.
unfoldable pub set_bits : (rounds c free : ℕ) → NorPage → NorPage
set_bits zero c free p = p
set_bits (suc rounds) c free p =
    set_bits rounds (c + 1) free
      (record p { bm1 = bitarr_set p.bm1 c free; bm2 = bitarr_set p.bm2 c 1 })

-- `vmtreeSetCountBitsLeaf`
unfoldable pub set_count_bits_leaf : NorGeometry → NorPage → (count : ℕ) → NorPage
unfolding set_bits
set_count_bits_leaf g p count = set_bits (leaf_limit g - count) count 1 (set_bits count 0 0 p)

-- `vmtreeSetCountBitsInterior`
unfoldable pub set_count_bits_interior : NorGeometry → NorPage → (count : ℕ) → NorPage
unfolding set_bits
set_count_bits_interior g p count =
    set_bits (interior_limit g - count) count 1 (set_bits count 0 0 p)

-- `vmtreeSetCountBitInterior`
unfoldable pub set_count_bit_interior : NorPage → (loc : ℕ) → NorPage
set_count_bit_interior p loc = record p { bm1 = bitarr_set p.bm1 loc 0 }

-- `vmtreeResetBlock` and `vmtreeResetBlockInterior`, for keys and data of four bytes
unfoldable pub reset_block : NorGeometry → NorPage → (count : ℕ) → NorPage
reset_block g p count = record p {
  keys = λ j. if leb count j && ltb j g.max_records then 2 ^ 32 - 1 else p.keys j;
  values = λ j. if leb count j && ltb j g.max_records then 2 ^ 32 - 1 else p.values j;
}

unfoldable pub reset_block_interior : NorGeometry → NorPage → (count : ℕ) → NorPage
reset_block_interior g p count = record p {
  keys = λ j. if leb count j && ltb j g.max_interior then 2 ^ 32 - 1 else p.keys j;
  values = λ j. if leb count j && ltb j g.max_interior then 2 ^ 32 - 1 else p.values j;
}

-- One location of a page is copied to another, or written.
unfoldable pub copy_slot : NorPage → (to from : ℕ) → NorPage
copy_slot p to from = record p {
  keys = update p.keys to (p.keys from);
  values = update p.values to (p.values from);
}

unfoldable pub write_slot : NorPage → (at key value : ℕ) → NorPage
write_slot p at key value = record p {
  keys = update p.keys at key;
  values = update p.values at value;
}

-- The loop that removes the invalid records, up to the first empty location.
unfoldable pub compact : (rounds : ℕ) → NorPage → (c count : ℕ) → NorPage × ℕ
unfolding copy_slot
compact zero p c count = (p, count)
compact (suc rounds) p c count =
    let valid = bitarr_get p.bm2 c == 1 in
    let p' = if valid && ltb count c then copy_slot p count c else p in
    let rest = compact rounds p' (c + 1) (if valid then count + 1 else count) in
    if is_empty p c then (p, count) else rest

-- The `while` of the insertion sorts, from `c2 = left - 1` down: records with larger keys move up.
-- The number is `c2 + 1`, the location left free.
unfoldable pub shift_up : (left : ℕ) → NorPage → (key : ℕ) → NorPage × ℕ
unfolding copy_slot
shift_up zero p key = (p, 0)
shift_up (suc c) p key =
    let rest = shift_up c (copy_slot p (c + 1) c) key in
    if ltb key (p.keys c) then rest else (p, c + 1)

-- `vmtreeInsertLeaf`
unfoldable pub insert_leaf : NorPage → (count key value : ℕ) → NorPage
unfolding shift_up write_slot
insert_leaf p count key value = let (p', at) = shift_up count p key in write_slot p' at key value

-- The insertion sort of the first records of a page, `rounds` more of them from `c` on.
unfoldable pub insertion_sort : (rounds c : ℕ) → NorPage → NorPage
unfolding shift_up write_slot
insertion_sort zero c p = p
insertion_sort (suc rounds) c p =
    let (p', at) = shift_up c p (p.keys c) in
    insertion_sort rounds (c + 1) (write_slot p' at (p.keys c) (p.values c))

-- `vmtreeSortBlockNorOverwrite`
unfoldable pub sort_block : NorGeometry → NorPage → NorPage × ℕ
unfolding compact insertion_sort
sort_block g p =
    let (p', count) = compact (leaf_limit g) p 0 0 in (insertion_sort (count - 1) 1 p', count)

-- `vmtreeSortInteriorBlockNorOverwrite`
unfoldable pub sort_interior_block : NorGeometry → NorPage → NorPage × ℕ
unfolding compact insertion_sort set_count_bits_interior
sort_interior_block g p =
    let (p', count) = compact (interior_limit g) p 0 0 in
    (insertion_sort (count - 1) 1 (set_count_bits_interior g p' count), count)
