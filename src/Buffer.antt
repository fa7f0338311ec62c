-- ===== src/Buffer.antt =====
-- src/dbbuffer.c: pages buffered in main memory over a storage, and the allocation of physical pages.
-- The storage is a parameter. The tree's state that the buffer reads through its back pointer is an
-- argument: the mapping table, and `root` for `activePath[0]`. A loop takes fuel, and `none` means
-- that it ran out.
pub mod Read
pub mod Write
pub mod Allocate
pub mod Returns
pub mod Erase
use vmtree.Base.{
  ℕ, zero, suc, ◌+◌, ◌-◌, ◌*◌, ◌/◌, ◌%◌, ◌^◌, Bool, true, false, ◌&&◌, not, Option, none, some,
  Memory, update, replicate, ltb, leb, ◌==◌, if◌then◌else◌,
}
use vmtree.BitArr.{BitArr, bitarr_set, bitarr_get}
use vmtree.Mapping.{Mappings, get_mapping}
use vmtree.Node.{Page}
use vmtree.Storage.{Device}

-- `dbbuffer`, less its pointers. `buffers` are the page buffers, `status` their physical pages.
pub record Buffer (St : Type 0) : Type 0 where
  pub status : Memory ℕ
  pub buffers : Memory Page
  pub num_pages : ℕ
  pub storage : St
  pub erase_size : ℕ
  pub end_data_page : ℕ
  pub erased_end_page : ℕ
  pub erased_start_page : ℕ
  pub next_page_id : ℕ
  pub next_page_write_id : ℕ
  pub num_writes : ℕ
  pub num_overwrites : ℕ
  pub num_reads : ℕ
  pub num_moves : ℕ
  pub buffer_hits : ℕ
  pub last_hit : ℕ
  pub next_buffer_page : ℕ
  pub free_pages : BitArr

-- `uint32_t` counters
abbrev pub inc32 : ℕ → ℕ
inc32 n = (n + 1) % 2 ^ 32

-- The loop that looks for a page in the buffers from `i` on, `left` of them.
unfoldable pub find_buffer : ℕ → Memory ℕ → (page i : ℕ) → Option ℕ
find_buffer zero status page i = none
find_buffer (suc left) status page i =
    let rest = find_buffer left status page (i + 1) in
    if status i == page && not (page == 0) then some i else rest

-- The loop that looks for an empty buffer.
unfoldable pub find_empty : ℕ → Memory ℕ → (i : ℕ) → Option ℕ
find_empty zero status i = none
find_empty (suc left) status i =
    let rest = find_empty left status (i + 1) in if status i == 0 then some i else rest

-- The round robin `while (1)`: the buffer taken and `nextBufferPage` after it.
unfoldable pub round_robin : ℕ → Memory ℕ → (num_pages last_hit i next : ℕ) → Option (ℕ × ℕ)
round_robin zero status num_pages last_hit i next = none
round_robin (suc fuel) status num_pages last_hit i next =
    let wraps = ltb (num_pages - 1) i in
    let i' = if wraps then 2 else i in
    let next' = if wraps then 2 else next in
    let rest = round_robin fuel status num_pages last_hit (i' + 1) next' in
    if status i' == last_hit then rest else some (i', next')

-- What `vmtreeIsValid` returns: 0, 1 and -1.
pub data Validity : Type 0 where
  in_use mapped unused : Validity

module _ {St : Type 0} (d : Device Page St) where
  -- `dbbufferSetFree`, `dbbufferSetValid` and `dbbufferIsFree`
  unfoldable pub set_free : Buffer St → ℕ → Buffer St
  set_free b page = record b { free_pages = bitarr_set b.free_pages page 1 }

  unfoldable pub set_valid : Buffer St → ℕ → Buffer St
  set_valid b page = record b { free_pages = bitarr_set b.free_pages page 0 }

  unfoldable pub is_free : Buffer St → ℕ → ℕ
  is_free b page = bitarr_get b.free_pages page

  -- `readPageBuffer`: the buffer after it, and whether it returned the page. On an error the
  -- contents of the page buffer are not used; they are left as they were.
  unfoldable pub read_page_buffer : Buffer St → (page slot : ℕ) → Buffer St × Bool
  read_page_buffer b page slot = elim (d.read_page b.storage page) [
    | none ↦ (b, false)
    | some p ↦ (record b { buffers = update b.buffers slot p; num_reads = inc32 b.num_reads }, true)
  ]

  -- The choice of a buffer for a page that is not buffered, with `nextBufferPage` after it.
  unfoldable pub choose_buffer : Buffer St → (root page : ℕ) → Option (ℕ × ℕ)
  choose_buffer b root page =
      if b.num_pages == 2
      then some (1, b.next_buffer_page)
      else if root == page
      then some (1, b.next_buffer_page)
      else if b.num_pages == 3
      then some (2, b.next_buffer_page)
      else elim (find_empty (b.num_pages - 2) b.status 2) [
        | some i ↦ some (i, b.next_buffer_page)
        | none ↦
            round_robin (2 * b.num_pages) b.status b.num_pages b.last_hit b.next_buffer_page
              (b.next_buffer_page + 1)
      ]

  -- `readPage`: the buffer after it, and the number of the page buffer that it returned, if any.
  unfoldable pub read_page : Buffer St → (root page : ℕ) → Option (Buffer St × Option ℕ)
  unfolding read_page_buffer choose_buffer
  read_page b root page = elim (find_buffer (b.num_pages - 1) b.status page 1) [
    | some i ↦
        some
          (record b { buffer_hits = inc32 b.buffer_hits; last_hit = b.status i % 2 ^ 16 }, some i)
    | none ↦ elim (choose_buffer b root page) [
      | none ↦ none
      | some (i, next) ↦
          let (b', found) =
            read_page_buffer (record b { status = update b.status i page; next_buffer_page = next })
              page i in
          some (b', if found then some i else none)
    ]
  ]

  -- `erasePages`: the storage erases, then each page is set free.
  unfoldable pub set_free_loop : ℕ → (page : ℕ) → Buffer St → Buffer St
  unfolding set_free
  set_free_loop zero page b = b
  set_free_loop (suc rounds) page b = set_free_loop rounds (page + 1) (set_free b page)

  unfoldable pub erase_pages : Buffer St → (first last : ℕ) → Buffer St
  unfolding set_free_loop
  erase_pages b first last =
      set_free_loop (last + 1 - first) first
        (record b { storage = d.erase_pages b.storage first last })

  -- The `while (1)` of `dbbufferNextValidPage`.
  unfoldable pub next_valid_loop : ℕ → Buffer St → Mappings → (page : ℕ) → Option ℕ
  unfolding is_free
  next_valid_loop zero b t page = none
  next_valid_loop (suc fuel) b t page =
      let page' = if ltb b.end_data_page page then 0 else page in
      let rest = next_valid_loop fuel b t (page' + 1) in
      if not (is_free b page' == 0) && get_mapping t page' == page' then some page' else rest

  -- `dbbufferNextValidPage`: the page, which is also the new `nextPageWriteId`.
  unfoldable pub next_valid_page : Buffer St → Mappings → Option (Buffer St × ℕ)
  unfolding next_valid_loop
  next_valid_page b t =
      elim (next_valid_loop (b.end_data_page + 3) b t (inc32 b.next_page_write_id)) [
        | none ↦ none
        | some page ↦ some (record b { next_page_write_id = page }, page)
      ]

  -- `writePageDirect` of the contents of page buffer `slot`: the id is put into its header there.
  -- The result of the storage is not looked at.
  unfoldable pub write_page_direct : Buffer St → (slot page : ℕ) → Buffer St
  unfolding set_valid
  write_page_direct b slot page =
      let p = record (b.buffers slot) { id = b.next_page_id } in
      set_valid
        (record b {
          buffers = update b.buffers slot p;
          next_page_id = inc32 b.next_page_id;
          storage = (d.write_page b.storage page p).0;
          num_writes = inc32 b.num_writes;
        })
        page

  -- `writePage`
  unfoldable pub write_page : Buffer St → Mappings → (slot : ℕ) → Option (Buffer St × ℕ)
  unfolding next_valid_page write_page_direct
  write_page b t slot = elim (next_valid_page b t) [
    | none ↦ none
    | some (b', page) ↦ some (write_page_direct b' slot page, page)
  ]

  -- `overWritePage` of page buffer `slot`: a buffered copy of the page is replaced too.
  unfoldable pub overwrite_page : Buffer St → (slot page : ℕ) → Buffer St
  overwrite_page b slot page =
      let p = b.buffers slot in
      let b' = record b {
        storage = (d.write_page b.storage page p).0;
        num_overwrites = inc32 b.num_overwrites;
      } in
      elim (find_buffer (b.num_pages - 1) b.status page 1) [
        | none ↦ b'
        | some i ↦ if i == slot then b' else record b' { buffers = update b.buffers i p }
      ]

  -- `initBufferPage`: every byte is 255, so each `uint32_t` is the largest.
  abbrev pub blank_page : Page
  blank_page = record {
    id = 2 ^ 32 - 1;
    prev = 2 ^ 32 - 1;
    count_field = 2 ^ 16 - 1;
    records = λ i. record { key = 2 ^ 32 - 1; value = 2 ^ 32 - 1 };
    keys = λ i. 2 ^ 32 - 1;
    pointers = λ i. 2 ^ 32 - 1;
    nor = record {
      bm1 = replicate 255 255;
      bm2 = replicate 255 255;
      keys = λ i. 2 ^ 32 - 1;
      values = λ i. 2 ^ 32 - 1;
    };
  }

  unfoldable pub init_buffer_page : Buffer St → (slot : ℕ) → Buffer St
  init_buffer_page b slot = record b {
    buffers = update b.buffers slot blank_page;
    status = update b.status slot 0;
  }

  -- `vmtreeIsValid` of src/vmtree.c; what stands below its first return is not reached.
  unfoldable pub is_valid : Buffer St → Mappings → ℕ → Validity
  unfolding is_free
  is_valid b t page =
      if is_free b page == 0 then in_use else if get_mapping t page == page then unused else mapped

  -- The counting loop of `dbbufferEnsureSpace`: whether `pages` free pages were met.
  unfoldable pub count_free : ℕ → Buffer St → (pages page num : ℕ) → Bool
  unfolding is_free
  count_free zero b pages page num = false
  count_free (suc rounds) b pages page num =
      let page' = if ltb b.end_data_page page then 0 else page in
      let num' = if is_free b page' == 0 then num else num + 1 in
      let rest = count_free rounds b pages (page' + 1) num' in if leb pages num' then true else rest

  -- How many pages that loop looks at: from the next page to write up to the erased pages.
  unfoldable pub num_check : Buffer St → ℕ
  num_check b =
      if leb b.next_page_write_id b.erased_end_page
      then (b.erased_end_page - b.next_page_write_id) % 2 ^ 16
      else (b.end_data_page + 2 ^ 32 - b.next_page_write_id + b.erased_end_page) % 2 ^ 32 % 2 ^ 16

  -- The loop that erases, page by page, what is not in use (`blockErase` is 0).
  unfoldable pub erase_unused : ℕ → Buffer St → Mappings → (page : ℕ) → Buffer St
  unfolding is_valid erase_pages
  erase_unused zero b t page = b
  erase_unused (suc rounds) b t page =
      let erased : Buffer St = elim (is_valid b t page) [
        | in_use ↦ b
        | mapped ↦ erase_pages b page page
        | unused ↦ erase_pages b page page
      ] in
      erase_unused rounds erased t (page + 1)

  -- The next block to erase; it starts at 0 again behind the last page.
  unfoldable pub erase_block : Buffer St → Mappings → Buffer St
  unfolding erase_unused
  erase_block b t =
      let start = inc32 b.erased_end_page in
      let end = (start + b.erase_size - 1) % 2 ^ 32 in
      let wraps = ltb b.end_data_page end in
      let first = if wraps then 0 else start in
      let last = if wraps then b.erase_size - 1 else end in
      record (erase_unused (last + 1 - first) (record b { erased_start_page = start }) t first) {
        erased_end_page = last;
      }

  -- `dbbufferEnsureSpace`: its last line calls it again.
  unfoldable pub ensure_space : ℕ → Buffer St → Mappings → (pages : ℕ) → Option (Buffer St × Bool)
  unfolding count_free num_check erase_block
  ensure_space zero b t pages = none
  ensure_space (suc fuel) b t pages =
      let rest = ensure_space fuel (erase_block b t) t pages in
      if count_free (suc (num_check b)) b pages b.next_page_write_id 0 then some (b, true) else rest

  -- `dbbufferInit`, on a buffer with its sizes set. The storage has `size` pages, and `malloc` gives
  -- the bytes `old` for the bit vector.
  unfoldable pub init : Buffer St → (size : ℕ) → (old : BitArr) → Buffer St
  unfolding erase_pages set_free_loop
  init b size old =
      let end = (size / b.erase_size * b.erase_size + 2 ^ 32 - 1) % 2 ^ 32 in
      let cleared = record b {
        next_page_id = 0;
        next_page_write_id = 0;
        num_reads = 0;
        num_writes = 0;
        num_overwrites = 0;
        num_moves = 0;
        buffer_hits = 0;
        last_hit = 0;
        next_buffer_page = 1;
        end_data_page = end;
        free_pages = old;
      } in
      record (erase_pages (set_free_loop end 0 cleared) 0 (b.erase_size * 2 - 1)) {
        erased_start_page = 0;
        erased_end_page = b.erase_size * 2 - 1;
        status = λ i. if ltb i b.num_pages then 0 else b.status i;
      }

  -- `dbbufferClearStats`
  unfoldable pub clear_stats : Buffer St → Buffer St
  clear_stats b = record b {
    num_reads = 0;
    num_writes = 0;
    buffer_hits = 0;
    num_overwrites = 0;
    num_moves = 0;
  }
