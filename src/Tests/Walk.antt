-- ===== src/Tests/Walk.antt =====
-- A tree of two levels, lookups in it, and insertions into a tree of one level.
use vmtree.Base.{
  ℕ, zero, suc, ◌+◌, ◌*◌, ◌≤◌, ◌≡◌, ◌≢◌, ◌⊎◌, ◌==◌, refl, ap, true, Option, none, some, arith,
  if◌then◌else◌,
}
use vmtree.Records.{Record}
use vmtree.BitArr.{bitarr_set, bitarr_get, bit_at, put_bit, set_bit}
use vmtree.Mapping.{get_mapping, get_mapping_index, init_mappings}
use vmtree.Node.{Page}
use vmtree.Storage.Mem.{MemStorage, mem_read_page, is_outside, mem_device, mem_device-Keeps}
use vmtree.Buffer.{Buffer, is_free, set_free, next_valid_page, next_valid_loop}
use vmtree.Buffer.Returns.{IsReady}
use vmtree.Tree.{Tree, with_buffer}
use vmtree.Tree.Put.{put_record}
use vmtree.Tree.Get.{get}
use vmtree.Tree.Shape.{IsTree, InTree-leaf}
use vmtree.Tree.Found.{get-put_record}
use vmtree.Tests.Mapping.{none_mapped}
use vmtree.Tree.Answers.{Answers, IsSound, Has, get-Answers}
use vmtree.Tree.Insert.{put_record-inserts}
use vmtree.Tree.Batch.{put_batch}
use vmtree.Tree.Batch.One.{forget_log, put_batch-one}
use vmtree.Tests.Node.{three, twenty_five, three-Ascends}
use vmtree.Tests.Buffer.{
  memory_of_eight, three_buffers, three_buffers-HasPages, three_buffers-IsReady, has_page,
}
use vmtree.Tests.Tree.{small_tree}

small_tree-IsSound : IsSound mem_device small_tree
unfolding IsTree mem_read_page is_outside
small_tree-IsSound = record {
  ready = three_buffers-IsReady;
  some_levels = omega arith;
  tree = (
    three,
    refl,
    record { flat = refl; sorted = three-Ascends; inside = λ i h. (omega arith, tt) },
  );
}

-- The page written is 1, and the one page buffer in use has page 3.
put_record-inserts_example :
    (t' : Tree (MemStorage Page)) × (put_record mem_device small_tree twenty_five ≡ some (t', true))
    × IsSound mem_device t'
    × ((x : Record) → Has mem_device small_tree x → Has mem_device t' x)
    × Has mem_device t' twenty_five
    × ((x : Record) → Has mem_device t' x → Has mem_device small_tree x ⊎ (x ≡ twenty_five))
unfolding mem_read_page is_outside next_valid_page next_valid_loop set_free is_free bitarr_get
    bit_at bitarr_set put_bit set_bit get_mapping get_mapping_index init_mappings
put_record-inserts_example =
    put_record-inserts mem_device mem_device-Keeps small_tree twenty_five three
      (record (set_free mem_device three_buffers 3) { next_page_write_id = 1 }) 1 small_tree-IsSound
      refl refl three_buffers-HasPages refl (omega arith) (omega arith) refl
      (λ i h k ne. (ground arith, has_page _ (ground arith)))

small_tree-fresh : (x : Record) → Has mem_device small_tree x → x.key ≢ 25
unfolding mem_read_page is_outside
small_tree-fresh x inn e =
    let (i, h, same) =
      InTree-leaf small_tree.geometry none_mapped (mem_read_page memory_of_eight) 3 three x refl
        inn in
    absurd (omega (arith, h, e, ap (λ (y : Record). y.key) same))

get-put_record_example :
    (t' : Tree (MemStorage Page)) × (after : Buffer (MemStorage Page)) × (put_record mem_device
        small_tree twenty_five
      ≡ some (t', true))
    × (get mem_device t' 25 ≡ some (with_buffer t' after, some 7))
unfolding mem_read_page is_outside next_valid_page next_valid_loop set_free is_free bitarr_get
    bit_at bitarr_set put_bit set_bit get_mapping get_mapping_index init_mappings
get-put_record_example =
    get-put_record mem_device mem_device-Keeps small_tree twenty_five three
      (record (set_free mem_device three_buffers 3) { next_page_write_id = 1 }) 1 small_tree-IsSound
      small_tree-fresh refl refl three_buffers-HasPages refl (omega arith) (omega arith) refl
      (λ i h k ne. (ground arith, has_page _ (ground arith)))

put_batch-one_example :
    forget_log (
      put_batch mem_device true small_tree
        (record { records = λ i. twenty_five; num_records = 1; max_records = 8 }))
    ≡ put_record mem_device small_tree twenty_five
put_batch-one_example = put_batch-one mem_device small_tree (λ i. twenty_five) 8

-- A root with key 20, in page 3, above the leaves in pages 1 and 2.
abbrev pub low_leaf : Page
low_leaf = record three { count_field = 1 }

abbrev pub high_leaf : Page
high_leaf = record three {
  count_field = 2;
  records = λ i. record { key = 20 + 10 * i; value = i + 1 };
}

abbrev pub root_page : Page
root_page = record three { count_field = 10001; keys = λ i. 20; pointers = λ i. i + 1 }

abbrev pub tall_tree : Tree (MemStorage Page)
tall_tree = record small_tree {
  levels = 2;
  buffer = record three_buffers {
    status = λ i. 0;
    storage = record memory_of_eight {
      pages = λ i. if i == 1 then low_leaf else if i == 2 then high_leaf else root_page;
    };
  };
}

pub tall_tree-IsReady : IsReady mem_device tall_tree.buffer
tall_tree-IsReady = record {
  coherent = record {
    agrees = λ i h k ne. absurd (ne refl);
    once = λ i j h k h' k' ne e. absurd (ne refl);
  };
  pages = omega arith;
  next = omega arith;
}

pub low_IsTree :
    IsTree tall_tree.table
      (mem_read_page tall_tree.buffer.storage)
      tall_tree.geometry
      0
      1
      0
      (some 20)
unfolding IsTree mem_read_page is_outside
low_IsTree = (
  low_leaf,
  refl,
  record {
    flat = refl;
    sorted = λ i j h k. omega arith;
    inside = λ i h. (omega arith, omega arith);
  },
)

pub high_IsTree :
    IsTree tall_tree.table (mem_read_page tall_tree.buffer.storage) tall_tree.geometry 0 2 20 none
unfolding IsTree mem_read_page is_outside
high_IsTree = (
  high_leaf,
  refl,
  record { flat = refl; sorted = λ i j h k. omega arith; inside = λ i h. (omega arith, tt) },
)

pub tall_tree-IsSound : IsSound mem_device tall_tree
unfolding IsTree mem_read_page is_outside get_mapping get_mapping_index init_mappings
tall_tree-IsSound = record {
  ready = tall_tree-IsReady;
  some_levels = omega arith;
  tree = (
    root_page,
    refl,
    record {
      interior = refl;
      fits = omega arith;
      rising = λ i j h k. absurd (omega arith);
      inside = λ i h. (omega arith, tt);
      leads = λ c h e. absurd (omega (arith, h, e));
    },
    below,
  );
}
  where
    below :
        (c : ℕ)
        → c ≤ 1
        → IsTree tall_tree.table
            (mem_read_page tall_tree.buffer.storage)
            tall_tree.geometry
            0
            (get_mapping tall_tree.table (c + 1))
            (if c == 0 then 0 else 20)
            (if c == 1 then none else some 20)
    below zero h = low_IsTree
    below (suc zero) h = high_IsTree
    below (suc (suc c)) h = absurd (omega arith)

get-Answers_example :
    (found : Option ℕ) × (after : Buffer (MemStorage Page)) × (get mem_device tall_tree 30
      ≡ some (with_buffer tall_tree after, found))
    × Answers (Has mem_device tall_tree) 30 found
    × (after.storage ≡ tall_tree.buffer.storage)
    × IsSound mem_device (with_buffer tall_tree after)
get-Answers_example = get-Answers mem_device tall_tree 30 tall_tree-IsSound
