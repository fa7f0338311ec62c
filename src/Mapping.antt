-- ===== src/Mapping.antt =====
-- src/vmtree.c, the mapping table: physical page numbers that moved, in an open-addressed hash
-- table that is probed a bounded number of times.
-- The probe index is an `int16_t`, which stays inside the table for 1 to 32760 slots (`IsValid` of
-- Mapping/Count); with more it can wrap below 0, and with none the code divides by 0, so that the
-- model is of the code for those tables only. The counter `numMappingCompare` is
-- statistics that no code reads, and is left out.
pub mod Count
pub mod Laws
pub mod Remove
use vmtree.Base.{
  ℕ, zero, suc, ◌+◌, ◌-◌, ◌/◌, ◌%◌, ◌^◌, Option, none, some, Memory, update, ◌==◌, ◌||◌,
  if◌then◌else◌, Bool, true, false,
}

-- `EMPTY_MAPPING` of the 4-byte mappings
abbrev pub empty_mapping : ℕ
empty_mapping = 65535

-- `HASH_TABLE_PRIME`
abbrev pub hash_table_prime : ℕ
hash_table_prime = 7

-- `vmtreemapping`: two `uint16_t`
pub record Slot : Type 0 where
  pub prev_page : ℕ
  pub curr_page : ℕ

-- The fields of `vmtreeState` that the table uses.
pub record Mappings : Type 0 where
  pub slots : Memory Slot
  pub num_mappings : ℕ
  pub max_mappings : ℕ
  pub max_tries : ℕ

-- `pageId % maxMappings`
unfoldable pub first_loc : ℕ → ℕ → ℕ
first_loc max page = page % max

-- `HASH_TABLE_PRIME - (pageId % HASH_TABLE_PRIME)`
unfoldable pub probe_offset : ℕ → ℕ
probe_offset page = hash_table_prime - page % hash_table_prime

-- How often the body of a `while (1)` runs: the count is tested after the body.
abbrev pub rounds : Mappings → ℕ
rounds t = suc (t.max_tries - 1)

-- The probing loop of `vmtreeGetMappingIndex` and `vmtreeDeleteMapping`: the first slot of the
-- chain whose `prevPage` is the page.
unfoldable pub find_slot : ℕ → Memory Slot → ℕ → ℕ → ℕ → Option ℕ
find_slot zero m max page loc = none
find_slot (suc n) m max page loc =
    let rest = find_slot n m max page ((loc + probe_offset page) % max) in
    if (m loc).prev_page == page then some loc else rest

-- The probing loop of `vmtreeAddMapping`: it stops at the page or at an empty slot.
unfoldable pub find_room : ℕ → Memory Slot → ℕ → ℕ → ℕ → Option ℕ
find_room zero m max page loc = none
find_room (suc n) m max page loc =
    let rest = find_room n m max page ((loc + probe_offset page) % max) in
    if (m loc).prev_page == page || (m loc).prev_page == empty_mapping then some loc else rest

-- `vmtreeGetMappingIndex`; `none` is -1
unfoldable pub get_mapping_index : Mappings → ℕ → Option ℕ
unfolding first_loc
get_mapping_index t page =
    if t.num_mappings == 0
    then none
    else find_slot (rounds t) t.slots t.max_mappings page (first_loc t.max_mappings page)

-- `vmtreeGetMapping`
unfoldable pub get_mapping : Mappings → ℕ → ℕ
get_mapping t page = elim (get_mapping_index t page) [
  | none ↦ page
  | some loc ↦ (t.slots loc).curr_page
]

-- The two writes of `vmtreeAddMapping`; a page number is cut to 16 bits when it is stored.
unfoldable pub fill_slot : Mappings → ℕ → ℕ → ℕ → Mappings
fill_slot t prev curr loc =
    if (t.slots loc).prev_page == prev
    then record t {
      slots = update t.slots loc (record (t.slots loc) { curr_page = curr % 2 ^ 16 });
    }
    else record t {
      num_mappings = (t.num_mappings + 1) % 2 ^ 16;
      slots = update t.slots loc (record { prev_page = prev % 2 ^ 16; curr_page = curr % 2 ^ 16 });
    }

-- `vmtreeAddMapping`: the table, and whether it returned 0
unfoldable pub add_mapping : Mappings → ℕ → ℕ → Mappings × Bool
unfolding fill_slot first_loc
add_mapping t prev curr =
    elim (find_room (rounds t) t.slots t.max_mappings prev (first_loc t.max_mappings prev)) [
      | none ↦ (t, false)
      | some loc ↦ (fill_slot t prev curr loc, true)
    ]

unfoldable pub clear_slot : Mappings → ℕ → Mappings
clear_slot t loc = record t {
  slots = update t.slots loc (record (t.slots loc) { prev_page = empty_mapping });
  num_mappings = t.num_mappings - 1;
}

-- `vmtreeDeleteMapping`, which always returns 0. Its `for` tests the count before the body.
-- A slot that is found makes the counter positive (`Mapping.Count`), so the decrement is exact.
unfoldable pub delete_mapping : Mappings → ℕ → Mappings
unfolding clear_slot first_loc
delete_mapping t prev =
    if t.num_mappings == 0
    then t
    else elim (find_slot t.max_tries t.slots t.max_mappings prev (first_loc t.max_mappings prev)) [
      | none ↦ t
      | some loc ↦ clear_slot t loc
    ]

-- The part of `vmtreeInit` that lays out the table: 4 bytes for each mapping.
unfoldable pub init_mappings : ℕ → Memory Slot → Mappings
init_mappings bytes old = record {
  slots = λ i. record (old i) { prev_page = empty_mapping };
  num_mappings = 0;
  max_mappings = bytes / 4 % 2 ^ 16;
  max_tries = 5;
}
