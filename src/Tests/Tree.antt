-- ===== src/Tests/Tree.antt =====
-- Small trees over a storage of eight pages in memory.
use vmtree.Base.{ℕ, ◌+◌, ◌<◌, ◌≤◌, ◌≡◌, ◌⊎◌, refl, arith}
use vmtree.BitArr.{bitarr_set, bitarr_get, bit_at, put_bit, set_bit}
use vmtree.Mapping.{get_mapping, get_mapping_index, init_mappings}
use vmtree.Mapping.Count.{IsValid}
use vmtree.Node.{Page}
use vmtree.Storage.Mem.{MemStorage, mem_device}
use vmtree.Buffer.{is_free, set_free}
use vmtree.Buffer.Allocate.{IsWritable}
use vmtree.Tree.{Tree, moving}
use vmtree.Tree.Mapped.{Saved, Progress, resolve, update_loop}
use vmtree.Tree.Pointers.{AreChildren, update_loop-resolves}
use vmtree.Tests.Mapping.{none_mapped, one_mapped, one_mapped-IsValid}
use vmtree.Tests.Buffer.{three_buffers}

-- A tree of one level, whose root is page 3.
abbrev pub small_tree : Tree (MemStorage Page)
small_tree = record {
  algorithm = moving;
  geometry = record { max_records = 4; max_interior = 4 };
  levels = 1;
  active_path = λ l. 3;
  num_nodes = 1;
  node_split_id = 0;
  num_mapping_write = 0;
  saved_mapping_prev = 65535;
  saved_mapping_curr = 0;
  table = none_mapped;
  buffer = three_buffers;
}

-- The three pointers of a node, of which the last was moved to 9.
abbrev three_children : Progress
three_children = record { table = one_mapped; pointers = λ i. i + 1; num = 0 }

abbrev nothing_saved : Saved
nothing_saved = record { prev = 65535; curr = 0 }

three_children-AreChildren : AreChildren three_children.pointers 0 3
three_children-AreChildren = record {
  small = λ j h k. omega arith;
  distinct = λ j k h1 h2 h3 h4 e. omega arith;
}

update_loop-resolves_example :
    IsValid (update_loop 3 nothing_saved 0 three_children).table
    × ((j : ℕ)
        → 0 ≤ j
        → j < 0 + 3
        → (update_loop 3 nothing_saved 0 three_children).pointers j
          ≡ resolve nothing_saved one_mapped (j + 1))
    × ((j : ℕ)
        → (j < 0) ⊎ (0 + 3 ≤ j)
        → (update_loop 3 nothing_saved 0 three_children).pointers j ≡ j + 1)
update_loop-resolves_example =
    update_loop-resolves 3 nothing_saved 0 three_children one_mapped-IsValid
      three_children-AreChildren

page_one-IsWritable : IsWritable mem_device (set_free mem_device three_buffers 3) none_mapped 1
unfolding is_free bitarr_get bit_at bitarr_set put_bit set_bit set_free get_mapping
    get_mapping_index init_mappings
page_one-IsWritable = record { exists = omega arith; free = omega arith; unmapped = refl }
