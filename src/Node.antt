-- ===== src/Node.antt =====
-- src/vmtree.h and src/vmtree.c: the pages of the tree, their header, and the geometry of a page.
pub mod Search
pub mod Leaf
pub mod Interior
use vmtree.Base.{ℕ, ◌+◌, ◌-◌, ◌*◌, ◌/◌, ◌%◌, ◌^◌, Bool, Memory, leb}
use vmtree.BitArr.{BitArr}
use vmtree.Records.{Record}

-- A page of OVERWRITE behind its header. A bit of `bm1` is 1 where the location is free, a bit of `bm2` is 1
-- while the record there is valid. `values` has the data of a leaf, or the pointers of an interior
-- page; the keys and the data stand in two arrays.
pub record NorPage : Type 0 where
  pub bm1 : BitArr
  pub bm2 : BitArr
  pub keys : Memory ℕ
  pub values : Memory ℕ

-- A page in memory. A leaf is read through `records`, an interior node through `keys` and
-- `pointers`: the two layouts share the bytes behind the header, and a page has one of them from
-- the time it is filled. A page of OVERWRITE is read through `nor`, over the same bytes. Slots behind the page stand for the memory that follows it.
pub record Page : Type 0 where
  pub id : ℕ
  pub prev : ℕ
  -- the `count_t` of the header, with its flags
  pub count_field : ℕ
  pub records : Memory Record
  pub keys : Memory ℕ
  pub pointers : Memory ℕ
  pub nor : NorPage

abbrev pub prev_id_constant : ℕ
prev_id_constant = 10000000

-- `VMTREE_GET_COUNT`
abbrev pub get_count : Page → ℕ
get_count p = p.count_field % 10000

-- `VMTREE_IS_INTERIOR`, `VMTREE_IS_ROOT`
abbrev pub is_interior : Page → Bool
is_interior p = leb 10000 p.count_field

abbrev pub is_root : Page → Bool
is_root p = leb 20000 p.count_field

-- `VMTREE_SET_COUNT`, `VMTREE_INC_COUNT`, `VMTREE_SET_PREV`
abbrev pub set_count : Page → ℕ → Page
set_count p n = record p { count_field = n % 2 ^ 16 }

abbrev pub inc_count : Page → Page
inc_count p = record p { count_field = (p.count_field + 1) % 2 ^ 16 }

abbrev pub set_prev : Page → ℕ → Page
set_prev p n = record p { prev = n }

-- `VMTREE_SET_INTERIOR`, `VMTREE_SET_ROOT`
abbrev pub set_interior : Page → Page
set_interior p = record p { count_field = (p.count_field + 10000) % 2 ^ 16 }

abbrev pub set_root : Page → Page
set_root p = record p { count_field = (p.count_field + 20000) % 2 ^ 16 }

-- The sizes that `vmtreeInit` computes for the layouts without overwriting.
pub record Geometry : Type 0 where
  pub max_records : ℕ
  pub max_interior : ℕ

-- `headerSize`
abbrev pub header_size : ℕ
header_size = 10

-- An interior node of n keys has n + 1 pointers of 4 bytes. `recordSize` is an `uint8_t`, and the
-- numbers of records are `uint16_t`; the code divides by the size, which is taken not to wrap to 0.
unfoldable pub geometry : (page_size key_size data_size : ℕ) → Geometry
geometry page_size key_size data_size = record {
  max_records = (page_size - header_size) / ((key_size + data_size) % 2 ^ 8) % 2 ^ 16;
  max_interior = (page_size - header_size - 4) / (key_size + 4) % 2 ^ 16;
}

-- `int8_t mid = count/2`, exact for the counts below 256 that the theorems are about
unfoldable pub mid_of : ℕ → ℕ
mid_of count = count / 2 % 2 ^ 8
