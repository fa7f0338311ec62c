-- ===== src/Mapping/Count.antt =====
-- `numMappings` counts the slots in use, and every probe stays inside the table.
use vmtree.Base.{
  ℕ, zero, suc, ◌+◌, ◌%◌, ◌≤◌, ◌<◌, ◌^◌, ◌≡◌, ◌≢◌, some, Memory, update, tally, tally-update, ◌==◌,
  if◌then◌else◌, arith, ◌⊎◌, Option-cases, Bool-cases, inl, inr,
}
use vmtree.Mapping.{
  Slot, Mappings, empty_mapping, probe_offset, rounds, find_slot, find_room, fill_slot, add_mapping,
  clear_slot, delete_mapping,
}

abbrev pub full : Slot → ℕ
full s = if s.prev_page == empty_mapping then 0 else 1

-- How many of the first `n` slots are in use.
abbrev pub used : Memory Slot → ℕ → ℕ
used m n = tally full m n

used-le : (m : Memory Slot) (n : ℕ) → used m n ≤ n
used-le m zero = omega arith
used-le m (suc n) = ground (arith, used-le m n)

-- A slot in use shows in the count.
pub used-pos : (m : Memory Slot) (i n : ℕ) → i < n → (m i).prev_page ≢ empty_mapping → 0 < used m n
used-pos m i zero h e = elim h [ ]
used-pos m i (suc n) h e = ground (arith, used-pos m i n)

pub record IsValid (t : Mappings) : Type 0 where
  pub counted : t.num_mappings ≡ used t.slots t.max_mappings
  pub some_slots : 0 < t.max_mappings
  -- so that `loc += offset` fits in an `int16_t`
  pub small : t.max_mappings + 7 < 2 ^ 15

-- Every probe stays inside the table.
pub next_loc-lt : (a m : ℕ) → 0 < m → a % m < m
next_loc-lt a m h = omega arith

-- The loops return slots of the table, and what they looked for is there.
pub find_slot-lt :
    (n : ℕ) (m : Memory Slot) (max page loc : ℕ) {r : ℕ}
    → 0 < max
    → loc < max
    → find_slot n m max page loc ≡ some r
    → (r < max) × ((m r).prev_page ≡ page)
unfolding find_slot
find_slot-lt zero m max page loc pos h e = cc
find_slot-lt (suc n) m max page loc {r} pos h e =
    let next = (loc + probe_offset page) % max in
    ground
      (arith, next_loc-lt (loc + probe_offset page) max pos, find_slot-lt n m max page next {r = r})

pub find_room-lt :
    (n : ℕ) (m : Memory Slot) (max page loc : ℕ) {r : ℕ}
    → 0 < max
    → loc < max
    → find_room n m max page loc ≡ some r
    → (r < max) × (((m r).prev_page ≡ page) ⊎ ((m r).prev_page ≡ empty_mapping))
unfolding find_room
find_room-lt zero m max page loc pos h e = cc
find_room-lt (suc n) m max page loc {r} pos h e =
    let next = (loc + probe_offset page) % max in
    ground
      (arith, next_loc-lt (loc + probe_offset page) max pos, find_room-lt n m max page next {r = r})

pub fill_slot-IsValid :
    (t : Mappings) (prev curr loc : ℕ)
    → IsValid t
    → loc < t.max_mappings
    → ((t.slots loc).prev_page ≡ prev) ⊎ ((t.slots loc).prev_page ≡ empty_mapping)
    → prev < empty_mapping
    → IsValid (fill_slot t prev curr loc)
unfolding fill_slot
fill_slot-IsValid t prev curr loc v h found p =
    let moved : Slot = record (t.slots loc) { curr_page = curr % 2 ^ 16 } in
    let fresh : Slot = record { prev_page = prev % 2 ^ 16; curr_page = curr % 2 ^ 16 } in
    ground (
      arith,
      tally-update full t.slots loc t.max_mappings moved h,
      tally-update full t.slots loc t.max_mappings fresh h,
      used-le (update t.slots loc fresh) t.max_mappings,
    )

-- `vmtreeAddMapping` of a page below the mark of an empty slot keeps a table valid, so that its
-- count is the number of slots in use, whether or not it finds room.
pub add_mapping-IsValid :
    {t : Mappings} (prev curr : ℕ)
    → prev < empty_mapping
    → IsValid t
    → IsValid (add_mapping t prev curr).0
unfolding add_mapping
add_mapping-IsValid {t} prev curr p v =
    elim (Option-cases (find_room (rounds t) t.slots t.max_mappings prev (prev % t.max_mappings))) [
      | inl e ↦ rw (e, add_mapping) v
      | inr (r, e) ↦
          let (inside, found) =
            find_room-lt (rounds t) t.slots t.max_mappings prev _ v.some_slots
              (omega (arith, v.some_slots)) e in
          rw (e, add_mapping) (fill_slot-IsValid t prev curr r v inside found p)
    ]

pub clear_slot-IsValid :
    (t : Mappings) (loc : ℕ)
    → IsValid t
    → loc < t.max_mappings
    → (t.slots loc).prev_page ≢ empty_mapping
    → IsValid (clear_slot t loc)
unfolding clear_slot
clear_slot-IsValid t loc v h e =
    let cleared : Slot = record (t.slots loc) { prev_page = empty_mapping } in
    ground (arith, tally-update full t.slots loc t.max_mappings cleared h)

-- `vmtreeDeleteMapping` of a page below the mark of an empty slot keeps a table valid.
pub delete_mapping-IsValid :
    {t : Mappings} (prev : ℕ) → prev < empty_mapping → IsValid t → IsValid (delete_mapping t prev)
unfolding delete_mapping
delete_mapping-IsValid {t} prev p v = elim (Bool-cases (t.num_mappings == 0)) [
  | inl e ↦ rw (e, delete_mapping) v
  | inr e ↦
      rw (e, delete_mapping)
        (elim (Option-cases
          (find_slot t.max_tries t.slots t.max_mappings prev (prev % t.max_mappings))) [
            | inl e2 ↦ rw (e2, delete_mapping) v
            | inr (r, e2) ↦
                let (inside, found) =
                  find_slot-lt t.max_tries t.slots t.max_mappings prev _ v.some_slots
                    (omega (arith, v.some_slots)) e2 in
                rw (e2, delete_mapping) (clear_slot-IsValid t r v inside (omega arith))
          ])
]
