-- ===== src/Tests/NorPut.antt =====
-- Records put into a tree of OVERWRITE, and the split of an interior page.
use vmtree.Base.{
  ℕ, ◌+◌, ◌*◌, ◌<◌, ◌≡◌, ◌≢◌, ◌==◌, ◌&&◌, refl, true, some, arith, if◌then◌else◌, ltb, update, ◌∷◌,
  [],
}
use vmtree.BitArr.{bitarr_get, bitarr_set, bit_at, put_bit, clear_bit, set_bit}
use vmtree.Mapping.{get_mapping, get_mapping_index, init_mappings}
use vmtree.Node.{Page}
use vmtree.Node.Interior.{Separator}
use vmtree.Storage.Mem.{
  MemStorage, mem_read_page, is_outside, mem_device, mem_device-Keeps, HasPage,
}
use vmtree.Buffer.Allocate.{IsWritable}
use vmtree.Tree.{Tree}
use vmtree.Nor.{NorPage}
use vmtree.Nor.Bits.{IsCounted}
use vmtree.Nor.Interior.{
  insert_interior, search_node_overwrite, next_loop, free_loop, is_closer, take_slot,
}
use vmtree.Nor.Interior.Split.{split_left, split_right, promoted_key}
use vmtree.Nor.Interior.Sent.{split_left-routes}
use vmtree.Nor.Routes.{route}
use vmtree.Nor.Leaf.{append_record, empty_loop}
use vmtree.Nor.Put.{put_at_leaf_nor, put_parents_nor}
use vmtree.Nor.Put.Append.{Appended, put_at_leaf_nor-appends}
use vmtree.Nor.Put.Parent.{put_parents_nor-IsWritable}
use vmtree.Tests.Nor.{eight, page, page_bit, page-HasBitmaps, page-IsBytes, every, every-at}
use vmtree.Tests.Node.{three, twenty_five}
use vmtree.Tests.Buffer.{memory_of_eight, three_buffers, has_page}
use vmtree.Tests.Tree.{small_tree}

-- Six records in order fill an interior page; key 25 goes to its first half.
abbrev six_children : NorPage
six_children = record {
  bm1 = 0 ∷ [];
  bm2 = 255 ∷ [];
  keys = λ i. 10 * (i + 1);
  values = λ i. 100 + i;
}

six_bits :
    every (λ i. (bitarr_get six_children.bm1 i == 0) && (bitarr_get six_children.bm2 i == 1)) 6
    ≡ true
unfolding every bitarr_get bit_at
six_bits = refl

six_bit :
    (i : ℕ) → i < 6 → (bitarr_get six_children.bm1 i ≡ 0) × (bitarr_get six_children.bm2 i ≡ 1)
six_bit i h = ground (
  arith,
  every-at (λ i. (bitarr_get six_children.bm1 i == 0) && (bitarr_get six_children.bm2 i == 1)) 6 i h
      six_bits,
)

six_children-IsCounted : IsCounted 6 6 six_children
six_children-IsCounted = record {
  maps = record {
    bytes1 = page-IsBytes 0 (omega arith);
    bytes2 = page-IsBytes 255 (omega arith);
    room1 = omega arith;
    room2 = omega arith;
  };
  live = λ i lt. ground (arith, six_bit i);
  empty = λ i lt. ground (arith, six_bit i);
}

split_left-routes_example :
    route eight
      (if ltb 12 (promoted_key six_children 5)
        then split_left eight six_children 5 25 70 90
        else split_right eight six_children 5 25 70 90)
      12
    ≡ (if search_node_overwrite eight true six_children 12
          == search_node_overwrite eight true six_children 25
        then (if ltb 12 25 then 70 else 90)
        else route eight six_children 12)
split_left-routes_example =
    split_left-routes eight six_children 5 25 70 90 12 six_children-IsCounted (omega arith)
      (omega arith) (omega arith) (λ i j h k. omega arith) (λ i h e. omega arith) (omega arith)
      (omega arith)

-- The page of OVERWRITE everywhere in the storage.
abbrev pub nor_page : Page
nor_page = record three { nor = page }

abbrev pub nor_tree : Tree (MemStorage Page)
nor_tree = record small_tree {
  levels = 2;
  buffer = record three_buffers {
    status = λ i. 0;
    storage = record memory_of_eight { pages = λ i. nor_page };
  };
}

abbrev appended : NorPage
appended = record page {
  bm1 = bitarr_set page.bm1 4 0;
  keys = update page.keys 4 25;
  values = update page.values 4 7;
}

appends : append_record eight page 25 7 ≡ some appended
unfolding append_record empty_loop bitarr_get bit_at
appends = refl

put_at_leaf_nor-appends_example :
    (t' : Tree (MemStorage Page)) × (put_at_leaf_nor mem_device eight nor_tree 3 twenty_five
      ≡ some (t', true))
    × (mem_read_page t'.buffer.storage 3 ≡ some (record nor_page { nor = appended }))
    × Appended 8 page appended 25 7
    × ((m : ℕ)
        → HasPage nor_tree.buffer.storage m
        → m ≢ 3
        → mem_read_page t'.buffer.storage m ≡ mem_read_page nor_tree.buffer.storage m)
unfolding mem_read_page is_outside
put_at_leaf_nor-appends_example =
    put_at_leaf_nor-appends mem_device mem_device-Keeps eight nor_tree 3 twenty_five nor_page refl
      (has_page 3 (omega arith)) (page-HasBitmaps 8 (omega arith))
      (λ i h e. ground (arith, page_bit i)) appends

abbrev half : Separator
half = record { key = 15; left = 7; right = 9 }

abbrev inserted : NorPage
inserted = (insert_interior eight page 15 7 9).0

inserts : insert_interior eight page 15 7 9 ≡ (inserted, true)
unfolding insert_interior next_loop free_loop is_closer take_slot bitarr_get bit_at bitarr_set
    put_bit clear_bit set_bit
inserts = refl

put_parents_nor-IsWritable_example :
    (t' : Tree (MemStorage Page)) × (put_parents_nor mem_device eight 1 nor_tree half
      ≡ some (t', true))
    × (mem_read_page t'.buffer.storage (t'.active_path 0)
        ≡ some (record nor_page { nor = inserted }))
    × (t'.active_path 0 ≡ 3)
    × IsWritable mem_device t'.buffer t'.table (t'.active_path 0)
unfolding mem_read_page is_outside get_mapping get_mapping_index init_mappings
put_parents_nor-IsWritable_example =
    put_parents_nor-IsWritable mem_device mem_device-Keeps eight nor_tree 0 half nor_page inserted
      refl (has_page 3 (omega arith)) inserts (page-IsBytes 255 (omega arith)) (omega arith)
      (omega arith) refl
