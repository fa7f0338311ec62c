-- ===== src/Tests/NorBatch.antt =====
-- Batches and lookups in a tree of OVERWRITE, and its printing.
use vmtree.Base.{
  ℕ, Memory, Bool, Option, false, ◌-◌, ◌≡◌, ◌≢◌, ◌==◌, refl, true, none, some, arith, if◌then◌else◌,
  update,
}
use vmtree.BitArr.{bitarr_get, bitarr_set, bit_at, put_bit, clear_bit}
use vmtree.Mapping.{get_mapping, get_mapping_index, init_mappings}
use vmtree.Records.{Record}
use vmtree.Sort.{
  in_memory_sort, quick_sort, quick_sort_helper, quick_sort_partition, partition_loop, scan_up,
  scan_down, swap,
}
use vmtree.Tree.Batch.{Log}
use vmtree.Tree.Batch.One.{forget_log}
use vmtree.Node.{Page}
use vmtree.Storage.Mem.{
  MemStorage, mem_read_page, is_outside, mem_device, mem_device-Keeps, HasPage,
}
use vmtree.Tree.{Tree, with_buffer}
use vmtree.Nor.{NorPage, write_slot}
use vmtree.Nor.Interior.{search_node_overwrite, min_loop, is_closer}
use vmtree.Nor.Leaf.{append_record, empty_loop}
use vmtree.Nor.Put.{find_leaf_nor, put_at_leaf_nor, put_nor_overwrite}
use vmtree.Buffer.{
  Buffer, read_page, choose_buffer, find_buffer, find_empty, round_robin, read_page_buffer,
}
use vmtree.Buffer.Returns.{IsReady}
use vmtree.Nor.Get.{get_nor}
use vmtree.Nor.Get.Missing.{Gives, Leads, get_nor-Gives}
use vmtree.Nor.Batch.{put_nor_batch}
use vmtree.Nor.Batch.Leaf.{append_all, Placed, put_nor_batch-appends}
use vmtree.Nor.Batch.One.{put_nor_batch-one}
use vmtree.Nor.Put.Append.{IsFillable}
use vmtree.Tests.Nor.{eight, page, page_bit, page-HasBitmaps}
use vmtree.Tests.Node.{twenty_five}
use vmtree.Tests.Buffer.{memory_of_eight, has_page}
use vmtree.Tests.NorPut.{nor_page, nor_tree}
use vmtree.Nor.Print.{print_tree, print_node, print_children, reset_path}

-- A tree of one leaf, and a log of two records.
abbrev nor_root : Tree (MemStorage Page)
nor_root = record nor_tree { levels = 1 }

abbrev two_records : Log
two_records = record {
  records = λ i. record { key = 27 - i; value = 7 };
  num_records = 2;
  max_records = 8;
}

unfoldable in_order : Memory Record
unfolding in_memory_sort quick_sort
in_order = elim (in_memory_sort true two_records.records 2 1) [
  | none ↦ two_records.records
  | some (err, m) ↦ m
]

sorts : in_memory_sort true two_records.records 2 1 ≡ some (0, in_order)
unfolding in_order in_memory_sort quick_sort quick_sort_helper quick_sort_partition partition_loop
    scan_up scan_down swap
sorts = refl

abbrev after_both : NorPage
after_both = record page {
  bm1 = bitarr_set (bitarr_set page.bm1 4 0) 5 0;
  keys = update (update page.keys 4 (in_order 0).key) 5 (in_order 1).key;
  values = update (update page.values 4 (in_order 0).value) 5 (in_order 1).value;
}

appends_both : append_all 2 eight page in_order 0 ≡ some after_both
unfolding append_all append_record empty_loop bitarr_get bit_at bitarr_set put_bit clear_bit
    write_slot
appends_both = refl

page-IsFillable : IsFillable 8 page
page-IsFillable = record {
  maps = page-HasBitmaps 8 (omega arith);
  valid = λ i h e. ground (arith, page_bit i);
}

put_nor_batch-appends_example :
    (t' : Tree (MemStorage Page)) × (put_nor_batch mem_device eight true nor_root two_records
      ≡ some (t', record two_records { records = in_order }, true))
    × (mem_read_page t'.buffer.storage 3 ≡ some (record nor_page { nor = after_both }))
    × Placed 8 page after_both in_order 0 2
    × ((m : ℕ)
        → HasPage nor_root.buffer.storage m
        → m ≢ 3
        → mem_read_page t'.buffer.storage m ≡ mem_read_page nor_root.buffer.storage m)
unfolding mem_read_page is_outside
put_nor_batch-appends_example =
    put_nor_batch-appends mem_device eight mem_device-Keeps nor_root two_records in_order nor_page 1
      refl refl sorts refl (has_page 3 (omega arith)) page-IsFillable appends_both

nor_root-readable :
    (t1 : Tree (MemStorage Page)) (page : ℕ)
    → find_leaf_nor mem_device eight 0 nor_root 25 0 3 ≡ some (t1, some page)
    → (read_page_buffer mem_device t1.buffer page 0).1 ≡ true
unfolding find_leaf_nor read_page_buffer mem_read_page is_outside
nor_root-readable t1 page e =
    let both : some (nor_root, some 3) ≡ some (t1, some page) = e in
    let same : nor_root ≡ t1 = cc in let at : 3 ≡ page = cc in rw (← same, ← at) refl

put_nor_batch-one_example :
    forget_log (
      put_nor_batch mem_device eight true nor_root
        (record { records = λ i. twenty_five; num_records = 1; max_records = 8 }))
    ≡ put_nor_overwrite mem_device eight nor_root twenty_five
put_nor_batch-one_example =
    put_nor_batch-one mem_device eight nor_root (λ i. twenty_five) 8 nor_root-readable

-- A root in page 3 whose pointers all lead to page 1, a leaf without key 25.
abbrev nor_above : Page
nor_above = record nor_page { count_field = 10001; nor = record page { values = λ i. 1 } }

abbrev two_level : Tree (MemStorage Page)
two_level = record nor_tree {
  buffer = record nor_tree.buffer {
    storage = record memory_of_eight { pages = λ i. if i == 3 then nor_above else nor_page };
  };
}

two_level-IsReady : IsReady mem_device two_level.buffer
two_level-IsReady = record {
  coherent = record {
    agrees = λ i h k ne. absurd (ne refl);
    once = λ i j h k h' k' ne same. absurd (ne refl);
  };
  pages = omega arith;
  next = omega arith;
}

two_level-Leads : Leads mem_device eight two_level.buffer.storage two_level.table 2 25 1 3 nor_page
unfolding Leads mem_read_page is_outside search_node_overwrite min_loop is_closer get_mapping
    get_mapping_index init_mappings bitarr_get bit_at
two_level-Leads = (nor_above, refl, refl, refl, (refl, refl))

get_nor-Gives_example :
    (found : ℕ) × (after : Buffer (MemStorage Page)) × (get_nor mem_device eight two_level 25
      ≡ some (with_buffer two_level after, some found))
    × Gives 8 page 25 found
    × (after.storage ≡ two_level.buffer.storage)
get_nor-Gives_example =
    get_nor-Gives mem_device eight two_level 25 nor_page two_level-IsReady two_level-Leads

-- The entries of the path for the two levels, and the result.
abbrev printed : Option (Tree (MemStorage Page)) → Option (ℕ × ℕ)
printed none = none
printed (some t) = some (t.active_path 1, t.active_path 2)

abbrev returned : Option (Tree (MemStorage Page) × Bool) → Option (ℕ × ℕ × Bool)
returned none = none
returned (some (t, ok)) = some (t.active_path 1, t.active_path 2, ok)

-- The tree of two levels is printed: one node at the first level, and at the second the leaf for
-- each of the three records of the root.
print_counts : printed (print_tree mem_device eight two_level) ≡ some (1, 3)
unfolding print_tree print_node print_children reset_path read_page read_page_buffer choose_buffer
    find_buffer find_empty round_robin mem_read_page is_outside get_mapping get_mapping_index
    init_mappings bitarr_get bit_at
print_counts = refl

-- Page 100 is outside the storage: the tree is printed, and -1 returned.
unreadable :
    returned (put_at_leaf_nor mem_device eight two_level 100 twenty_five) ≡ some (1, 3, false)
unfolding put_at_leaf_nor print_tree print_node print_children reset_path read_page read_page_buffer
    choose_buffer find_buffer find_empty round_robin mem_read_page is_outside get_mapping
    get_mapping_index init_mappings bitarr_get bit_at
unreadable = refl
