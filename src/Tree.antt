-- ===== src/Tree.antt =====
-- src/vmtree.c and src/vmtree.h: the state of the tree, and what every operation of it uses.
-- The tree runs as VMTREE or as BTREE; the pages of OVERWRITE are in Nor. A loop on fuel
-- and the page allocation give `none` when the fuel runs out. `vmtreeInit` is here, too.
pub mod Mapped
pub mod Put
pub mod Get
pub mod Iterator
pub mod Pointers
pub mod Leaf
pub mod Lookup
pub mod Shape
pub mod Walk
pub mod Answers
pub mod Batch
pub mod Owned
pub mod Insert
pub mod Found
pub mod Grow
use vmtree.Base.{
  ℕ, zero, suc, ◌+◌, ◌-◌, ◌*◌, ◌/◌, ◌%◌, ◌^◌, Bool, true, false, ◌||◌, Option, none, some, Memory,
  update, ltb, ◌==◌, if◌then◌else◌,
}
use vmtree.BitArr.{BitArr}
use vmtree.Mapping.{Mappings, Slot, get_mapping, init_mappings, empty_mapping}
use vmtree.Node.{Page, Geometry, geometry, get_count, set_count, set_root}
use vmtree.Storage.{Device}
use vmtree.Buffer.{Buffer, init, init_buffer_page, write_page_direct}

-- The flag `parameters`: VMTREE writes a changed page elsewhere, BTREE writes it in place.
pub data Algorithm : Type 0 where
  moving in_place : Algorithm

-- `vmtreeState`, less the pointers and the log buffer. `activePath` has `MAX_LEVEL` = 8 entries, and
-- nothing in the code tests `levels`: the model is of the code for trees of up to 8 levels.
pub record Tree (St : Type 0) : Type 0 where
  pub algorithm : Algorithm
  pub geometry : Geometry
  pub levels : ℕ
  pub active_path : Memory ℕ
  pub num_nodes : ℕ
  pub node_split_id : ℕ
  pub num_mapping_write : ℕ
  pub saved_mapping_prev : ℕ
  pub saved_mapping_curr : ℕ
  pub table : Mappings
  pub buffer : Buffer St

-- The page in a page buffer, and its replacement there.
unfoldable pub page_in : {St : Type 0} → Tree St → (slot : ℕ) → Page
page_in t slot = t.buffer.buffers slot

unfoldable pub put_page : {St : Type 0} → Tree St → (slot : ℕ) → Page → Tree St
put_page t slot p = record t {
  buffer = record t.buffer { buffers = update t.buffer.buffers slot p };
}

unfoldable pub with_buffer : {St : Type 0} → Tree St → Buffer St → Tree St
with_buffer t b = record t { buffer = b }

-- `activePath[l] = page`
unfoldable pub set_path : {St : Type 0} → Tree St → (l page : ℕ) → Tree St
set_path t l page = record t { active_path = update t.active_path l page }

-- `getChildPageId`: the page of a child; `none` is -1, also where the mapped number is -1.
unfoldable pub get_child_page_id : Mappings → Page → (child : ℕ) → Option ℕ
get_child_page_id table p child =
    let next = get_mapping table (p.pointers child) in
    if ltb (get_count p) child || next == 2 ^ 32 - 1 then none else some next

-- `vmtreeInit`: the table, the geometry and an empty root. `size` and `old` are for the buffer;
-- `slots` is what the mapping buffer holds, and `mapping_size` its bytes (0 without one).
unfoldable pub init_tree :
    {St : Type 0}
    → Device Page St
    → Algorithm
    → (page_size key_size data_size : ℕ) → (slots : Memory Slot) → (mapping_size : ℕ) → Tree St
    → (size : ℕ) → (old : BitArr) → Tree St
init_tree d algorithm page_size key_size data_size slots mapping_size t size old =
    let blank = init_buffer_page d (init d t.buffer size old) 0 in
    let root = set_count (set_root (blank.buffers 0)) 0 in
    record t {
      algorithm = algorithm;
      geometry = geometry page_size key_size data_size;
      levels = 1;
      num_nodes = 1;
      num_mapping_write = 0;
      saved_mapping_prev = empty_mapping;
      table = init_mappings mapping_size slots;
      active_path = update t.active_path 0 0;
      buffer = write_page_direct d (record blank { buffers = update blank.buffers 0 root }) 0 0;
    }
