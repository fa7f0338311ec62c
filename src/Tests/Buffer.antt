-- ===== src/Tests/Buffer.antt =====
-- src/dbbuffer.c over a storage of eight pages in memory.
use vmtree.Base.{
  ℕ, ◌≤◌, ◌≡◌, ◌≢◌, ◌==◌, ◌&&◌, leb, refl, true, none, some, arith, if◌then◌else◌, replicate, zero,
  suc, Bool-cases, inl, inr,
}
use vmtree.BitArr.{bitarr_get, bit_at, bitarr_set, put_bit, set_bit}
use vmtree.BitArr.Laws.{IsBytes}
use vmtree.Mapping.{get_mapping, get_mapping_index, init_mappings}
use vmtree.Node.{Page}
use vmtree.Storage.Mem.{
  MemStorage, HasPage, mem_read_page, mem_write_page, is_outside, mem_device, mem_device-Keeps,
}
use vmtree.Buffer.{
  Buffer, find_buffer, choose_buffer, read_page, is_free, next_valid_loop, next_valid_page,
  write_page_direct, write_page, overwrite_page, count_free, num_check, ensure_space, erase_block,
  erase_unused, is_valid, erase_pages, set_free_loop, set_free, blank_page,
}
use vmtree.Buffer.Read.{IsCoherent, after_failure, after_hit, read_page-after_failure}
use vmtree.Buffer.Write.{overwrite_page-IsCoherent, write_page_direct-stale}
use vmtree.Buffer.Allocate.{
  IsWritable, HasPages, free_in, next_valid_page-IsWritable, ensure_space-free_in,
  write_page-writes,
}
use vmtree.Buffer.Returns.{IsReady, Reads, read_page-Reads}
use vmtree.Buffer.Erase.{IsSpared, ensure_space-IsSpared}
use vmtree.Storage.{Device, Spares}
use vmtree.Tests.Node.{three}
use vmtree.Tests.Mapping.{none_mapped}

abbrev pub memory_of_eight : MemStorage Page
memory_of_eight = record { size = 4096; page_size = 512; pages = λ i. three }

-- Three page buffers, of which 1 holds page 3.
abbrev pub three_buffers : Buffer (MemStorage Page)
three_buffers = record {
  status = λ i. if i == 1 then 3 else 0;
  buffers = λ i. three;
  num_pages = 3;
  storage = memory_of_eight;
  erase_size = 2;
  end_data_page = 7;
  erased_end_page = 3;
  erased_start_page = 0;
  next_page_id = 5;
  next_page_write_id = 0;
  num_writes = 0;
  num_overwrites = 0;
  num_reads = 0;
  num_moves = 0;
  buffer_hits = 0;
  last_hit = 0;
  next_buffer_page = 1;
  free_pages = replicate 1 255;
}

pub has_page : (n : ℕ) → n ≤ 7 → HasPage memory_of_eight n
has_page n h = (omega arith, omega arith, omega arith)

pub three_buffers-HasPages : HasPages mem_device mem_device-Keeps three_buffers
three_buffers-HasPages n h = has_page n h

pub three_buffers-IsCoherent : IsCoherent mem_device three_buffers
unfolding mem_read_page is_outside
three_buffers-IsCoherent = record {
  agrees =
      λ i h k ne. elim (Bool-cases (i == 1)) [ inl e ↦ rw e refl | inr e ↦ absurd (ground arith) ];
  once = λ i j h k h' k' ne e. ground arith;
}

-- A page that the storage does not have, in page buffer 2, which is free for it.
read_page-after_failure_example :
    (read_page mem_device three_buffers 0 9
      ≡ some (after_failure mem_device three_buffers 9 2 1, none))
    × ((j : ℕ) × (read_page mem_device (after_failure mem_device three_buffers 9 2 1) 0 9
          ≡ some (after_hit mem_device (after_failure mem_device three_buffers 9 2 1) j, some j)))
unfolding find_buffer choose_buffer mem_read_page is_outside
read_page-after_failure_example =
    read_page-after_failure mem_device three_buffers 0 9 2 1 (omega arith) (omega arith)
      (omega arith) refl refl refl

overwrite_page-IsCoherent_example :
    IsCoherent mem_device (overwrite_page mem_device three_buffers 0 3)
    × (mem_read_page (overwrite_page mem_device three_buffers 0 3).storage 3 ≡ some three)
overwrite_page-IsCoherent_example =
    overwrite_page-IsCoherent mem_device mem_device-Keeps three_buffers 3 three_buffers-IsCoherent
      (omega arith) (has_page 3 (omega arith)) (λ i h k ne. has_page _ (ground arith))

write_page_direct-stale_example :
    (find_buffer 2 (write_page_direct mem_device three_buffers 0 3).status 3 1 ≡ some 1)
    × (mem_read_page (write_page_direct mem_device three_buffers 0 3).storage 3
        ≢ some ((write_page_direct mem_device three_buffers 0 3).buffers 1))
unfolding find_buffer write_page_direct
write_page_direct-stale_example =
    write_page_direct-stale mem_device mem_device-Keeps three_buffers 3 {i = 1} refl
      (has_page 3 (omega arith)) (omega arith)

next_valid_page-IsWritable_example :
    ((b' : Buffer (MemStorage Page)) (page : ℕ)
      → next_valid_page mem_device three_buffers none_mapped ≡ some (b', page)
      → IsWritable mem_device three_buffers none_mapped page
        × (b' ≡ record three_buffers { next_page_write_id = page }))
    × ((q : ℕ)
        → IsWritable mem_device three_buffers none_mapped q
        → next_valid_page mem_device three_buffers none_mapped ≢ none)
next_valid_page-IsWritable_example = next_valid_page-IsWritable mem_device three_buffers none_mapped

ensure_space-free_in_example :
    (true ≡ true)
    × (2 ≤ free_in mem_device (suc (num_check mem_device three_buffers)) three_buffers 0)
unfolding ensure_space count_free num_check is_free bitarr_get bit_at
ensure_space-free_in_example =
    ensure_space-free_in mem_device 1 three_buffers none_mapped 2 {b' = three_buffers}
      {found = true} refl

-- The page buffers after page buffer 0 is written to page 1.
abbrev written : Buffer (MemStorage Page)
written = write_page_direct mem_device (record three_buffers { next_page_write_id = 1 }) 0 1

write_page-writes_example :
    IsWritable mem_device three_buffers none_mapped 1
    × (mem_read_page written.storage 1 ≡ some (record three { id = 5 }))
    × ((m : ℕ) → m ≤ 7 → m ≢ 1 → mem_read_page written.storage m ≡ mem_read_page memory_of_eight m)
unfolding write_page next_valid_page next_valid_loop is_free bitarr_get bit_at get_mapping
    get_mapping_index init_mappings
write_page-writes_example =
    write_page-writes mem_device mem_device-Keeps three_buffers written none_mapped 0 1
      three_buffers-HasPages refl

pub three_buffers-IsReady : IsReady mem_device three_buffers
three_buffers-IsReady = record {
  coherent = three_buffers-IsCoherent;
  pages = omega arith;
  next = omega arith;
}

-- Page 4 is not buffered.
read_page-Reads_example : Reads mem_device three_buffers 0 4 three
unfolding mem_read_page is_outside
read_page-Reads_example =
    read_page-Reads mem_device three_buffers 0 4 three three_buffers-IsReady refl

-- The memory, with an erasing that fills the pages with 255.
abbrev erasing_device : Device Page (MemStorage Page)
erasing_device = record {
  read_page = mem_read_page;
  write_page = mem_write_page;
  erase_pages = λ s first last. record s {
    pages = λ i. if leb first i && leb i last then blank_page mem_device else s.pages i;
  };
}

erasing_device-Spares : Spares erasing_device
unfolding mem_read_page is_outside
erasing_device-Spares = record { other = λ s n m h. ground arith }

-- Page 4 is in use.
abbrev four_used : Buffer (MemStorage Page)
four_used = record three_buffers { free_pages = replicate 1 239 }

four_used-IsBytes : IsBytes four_used.free_pages
four_used-IsBytes zero = omega arith
four_used-IsBytes (suc i) = omega arith

-- The next block, pages 4 and 5, is erased before five pages are free.
ensure_space-IsSpared_example :
    IsSpared erasing_device four_used (erase_block erasing_device four_used none_mapped)
unfolding ensure_space count_free num_check is_free bitarr_get bit_at erase_block erase_unused
    is_valid erase_pages set_free_loop set_free bitarr_set put_bit set_bit get_mapping
    get_mapping_index init_mappings
ensure_space-IsSpared_example =
    ensure_space-IsSpared erasing_device erasing_device-Spares 2 four_used none_mapped 5
      {b' = erase_block erasing_device four_used none_mapped} {enough = true} four_used-IsBytes refl
