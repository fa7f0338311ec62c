-- ===== src/Tests/Mapping.antt =====
-- The mapping table of src/vmtree.c with 16 slots.
use vmtree.Base.{ℕ, ◌%◌, ◌<◌, ◌≡◌, ◌≢◌, ◌↔◌, ◌==◌, refl, false, arith, if◌then◌else◌}
use vmtree.Mapping.{
  Mappings, empty_mapping, rounds, find_slot, find_room, probe_offset, get_mapping, add_mapping,
  delete_mapping, init_mappings, fill_slot, first_loc,
}
use vmtree.Mapping.Count.{IsValid, add_mapping-IsValid}
use vmtree.Mapping.Laws.{IsTaken, probe_at, get_mapping-add_mapping, add_mapping-full}
use vmtree.Mapping.Remove.{get_mapping-delete_mapping_stale}

abbrev pub none_mapped : Mappings
none_mapped = init_mappings 64 (λ i. record { prev_page = 0; curr_page = 0 })

pub none_mapped-IsValid : IsValid none_mapped
unfolding init_mappings
none_mapped-IsValid = record { counted = refl; some_slots = omega arith; small = omega arith }

-- Page 3 moved to 9.
abbrev pub one_mapped : Mappings
one_mapped = (add_mapping none_mapped 3 9).0

pub one_mapped-IsValid : IsValid one_mapped
one_mapped-IsValid = add_mapping-IsValid 3 9 (omega arith) none_mapped-IsValid

-- Two slots of the chain of page 3 hold it, as two slots: 3 with the page 9, and 7 with the page 8.
abbrev twice_mapped : Mappings
twice_mapped = record {
  slots = λ i.
      if i == 3
      then record { prev_page = 3; curr_page = 9 }
      else if i == 7
      then record { prev_page = 3; curr_page = 8 }
      else record { prev_page = empty_mapping; curr_page = 0 };
  num_mappings = 2;
  max_mappings = 16;
  max_tries = 5;
}

twice_mapped-IsValid : IsValid twice_mapped
twice_mapped-IsValid = record { counted = refl; some_slots = omega arith; small = omega arith }

abbrev once_mapped : Mappings
once_mapped = record {
  slots = λ i.
      if i == 3
      then record { prev_page = 3; curr_page = 9 }
      else record { prev_page = empty_mapping; curr_page = 0 };
  num_mappings = 1;
  max_mappings = 16;
  max_tries = 5;
}

once_mapped-IsValid : IsValid once_mapped
once_mapped-IsValid = record { counted = refl; some_slots = omega arith; small = omega arith }

in_slot_three : (s : ℕ) → (once_mapped.slots s).prev_page ≡ 3 → s ≡ 3
in_slot_three s e = ground arith

add_mapping-IsValid_example : IsValid (add_mapping one_mapped 3 12).0
add_mapping-IsValid_example = add_mapping-IsValid 3 12 (omega arith) one_mapped-IsValid

get_mapping-add_mapping_example :
    get_mapping (add_mapping none_mapped 3 9).0 3
    ≡ (if 3 == 3 then 9 else get_mapping none_mapped 3)
unfolding add_mapping find_room init_mappings
get_mapping-add_mapping_example =
    get_mapping-add_mapping 3 9 3 none_mapped-IsValid (omega arith) (omega arith) (omega arith) refl

-- A table of two slots, which pages 4 and 5 take; both probes of page 3 find page 5.
abbrev two_slots : Mappings
two_slots = record none_mapped { max_mappings = 2 }

abbrev full_table : Mappings
full_table = (add_mapping (add_mapping two_slots 4 10).0 5 11).0

full_table-IsValid : IsValid full_table
unfolding init_mappings add_mapping fill_slot find_room first_loc probe_offset
full_table-IsValid = record { counted = refl; some_slots = omega arith; small = omega arith }

full_table-full : (add_mapping full_table 3 12).1 ≡ false
unfolding init_mappings add_mapping fill_slot find_room first_loc probe_offset
full_table-full = refl

add_mapping-full_example :
    ((add_mapping full_table 3 12).1 ≡ false ↔ (
      (k : ℕ)
      → k < rounds full_table
      → IsTaken
          (full_table.slots (probe_at full_table.max_mappings 3 (3 % full_table.max_mappings) k))
          3))
    × ((k : ℕ)
        → probe_at full_table.max_mappings 3 (3 % full_table.max_mappings) k
          < full_table.max_mappings)
    × ((add_mapping full_table 3 12).1 ≡ false → (add_mapping full_table 3 12).0 ≡ full_table)
add_mapping-full_example = add_mapping-full full_table 3 12 full_table-IsValid

get_mapping-delete_mapping_stale_example :
    (s : ℕ) × (s ≢ 3)
    × ((twice_mapped.slots s).prev_page ≡ 3)
    × (get_mapping (delete_mapping twice_mapped 3) 3 ≡ (twice_mapped.slots s).curr_page)
unfolding find_slot probe_offset
get_mapping-delete_mapping_stale_example =
    get_mapping-delete_mapping_stale 3 3 twice_mapped-IsValid (omega arith) (omega arith) refl 1
      (omega arith) (ground arith) refl
