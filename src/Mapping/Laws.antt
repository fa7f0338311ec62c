-- ===== src/Mapping/Laws.antt =====
-- The mapping table as a map from pages to pages: a lookup after `vmtreeAddMapping`.
use vmtree.Base.{
  ℕ, zero, suc, ◌+◌, ◌%◌, ◌<◌, ◌^◌, ◌≡◌, refl, ◌≢◌, Option, none, some, Memory, ◌==◌, if◌then◌else◌,
  arith, true, false, ◌⊎◌, ◌↔◌, ◌||◌, Option-cases, Bool-cases, inl, inr,
}
use vmtree.Mapping.{
  Slot, Mappings, empty_mapping, probe_offset, rounds, find_slot, find_room, fill_slot,
  get_mapping_index, get_mapping, add_mapping,
}
use vmtree.Mapping.Count.{
  IsValid, used-pos, find_slot-lt, find_room-lt, next_loc-lt, fill_slot-IsValid,
}

-- A chain is searched alike in two tables that agree on which slots hold the page.
pub find_slot_congr :
    (n : ℕ) (m k : Memory Slot) (max page loc : ℕ)
    → ((j : ℕ) → ((k j).prev_page == page) ≡ ((m j).prev_page == page))
    → find_slot n k max page loc ≡ find_slot n m max page loc
unfolding find_slot
find_slot_congr zero m k max page loc h = refl
find_slot_congr (suc n) m k max page loc h =
    rw (h loc, find_slot_congr n m k max page ((loc + probe_offset page) % max) h)

-- Where `vmtreeAddMapping` found room, the search finds the page once it stands there.
find_slot-find_room :
    (n : ℕ) (m k : Memory Slot) (max page loc : ℕ) {r : ℕ}
    → 0 < max
    → loc < max
    → (k r).prev_page ≡ page
    → ((j : ℕ) → r ≢ j → k j ≡ m j)
    → find_room n m max page loc ≡ some r
    → find_slot n k max page loc ≡ some r
unfolding find_slot find_room
find_slot-find_room zero m k max page loc pos lt h same e = cc
find_slot-find_room (suc n) m k max page loc {r = r} pos lt h same e =
    let next = (loc + probe_offset page) % max in
    let next_lt = next_loc-lt (loc + probe_offset page) max pos in
    ground (
      arith,
      same loc,
      find_room-lt n m max page next {r = r},
      find_slot-find_room n m k max page next {r = r} pos next_lt h same,
    )

-- What a write to the slot found by `vmtreeAddMapping` leaves.
record Filled (t : Mappings) (prev curr r : ℕ) (u : Mappings) : Type 0 where
  same_max : u.max_mappings ≡ t.max_mappings
  same_tries : u.max_tries ≡ t.max_tries
  here_prev : (u.slots r).prev_page ≡ prev
  here_curr : (u.slots r).curr_page ≡ curr
  others : (j : ℕ) → r ≢ j → u.slots j ≡ t.slots j

fill_slot-Filled :
    (t : Mappings) (prev curr r : ℕ)
    → prev < empty_mapping
    → curr < 2 ^ 16
    → Filled t prev curr r (fill_slot t prev curr r)
unfolding fill_slot
fill_slot-Filled t prev curr r p c = elim (Bool-cases ((t.slots r).prev_page == prev)) [
  | inl e ↦
      rw (e, fill_slot)
        (record {
          same_max = refl;
          same_tries = refl;
          here_prev = ground arith;
          here_curr = ground arith;
          others = λ j ne. ground arith;
        })
  | inr e ↦
      rw (e, fill_slot)
        (record {
          same_max = refl;
          same_tries = refl;
          here_prev = ground arith;
          here_curr = ground arith;
          others = λ j ne. ground arith;
        })
]

-- The search of the chain of a page, from its first slot.
abbrev pub chain : Mappings → ℕ → Option ℕ
chain t q = find_slot (rounds t) t.slots t.max_mappings q (q % t.max_mappings)

-- In a valid table the shortcut for an empty table changes nothing.
pub get_mapping_index-chain :
    (t : Mappings) (q : ℕ) → IsValid t → q < empty_mapping → get_mapping_index t q ≡ chain t q
unfolding get_mapping_index
get_mapping_index-chain t q v h = elim (Option-cases (chain t q)) [
  | inl e ↦ ground arith
  | inr (r, e) ↦
      let (inside, found) =
        find_slot-lt (rounds t) t.slots t.max_mappings q _ v.some_slots
          (next_loc-lt q t.max_mappings v.some_slots) e in
      ground (arith, used-pos t.slots r t.max_mappings inside)
]

-- What `vmtreeGetMapping` returns for a result of the search.
abbrev pub found_page : Memory Slot → ℕ → Option ℕ → ℕ
found_page m q none = q
found_page m q (some loc) = (m loc).curr_page

pub get_mapping-chain :
    (t : Mappings) (q : ℕ)
    → IsValid t
    → q < empty_mapping
    → get_mapping t q ≡ found_page t.slots q (chain t q)
unfolding get_mapping
get_mapping-chain t q v h = ground (arith, get_mapping_index-chain t q v h)

module _ {t u : Mappings} {p c r : ℕ} (f : Filled t p c r u) (v : IsValid t) where
  chain-Filled_self :
      find_room (rounds t) t.slots t.max_mappings p (p % t.max_mappings) ≡ some r
      → chain u p ≡ some r
  chain-Filled_self e =
      rw (f.same_tries, f.same_max)
        (find_slot-find_room (rounds t) t.slots u.slots t.max_mappings p _ v.some_slots
          (next_loc-lt p _ v.some_slots) f.here_prev f.others e)

  chain-Filled_ne :
      (q : ℕ)
      → ((t.slots r).prev_page ≡ p) ⊎ ((t.slots r).prev_page ≡ empty_mapping)
      → p ≢ q
      → q < empty_mapping
      → chain u q ≡ chain t q
  chain-Filled_ne q old ne h =
      rw (f.same_tries, f.same_max)
        (find_slot_congr (rounds t) t.slots u.slots t.max_mappings q _ (λ j. same j))
    where
      same : (j : ℕ) → ((u.slots j).prev_page == q) ≡ ((t.slots j).prev_page == q)
      same j = ground (arith, f.others j)

  found_page-Filled_ne :
      (q : ℕ)
      → ((t.slots r).prev_page ≡ p) ⊎ ((t.slots r).prev_page ≡ empty_mapping)
      → p ≢ q
      → q < empty_mapping
      → found_page u.slots q (chain t q) ≡ found_page t.slots q (chain t q)
  found_page-Filled_ne q old ne h = elim (Option-cases (chain t q)) [
    | inl e ↦ rw e
    | inr (s, e) ↦
        let (inside, found) =
          find_slot-lt (rounds t) t.slots t.max_mappings q _ v.some_slots
            (next_loc-lt q t.max_mappings v.some_slots) e in
        rw e (ground (arith, f.others s))
  ]

-- After `vmtreeAddMapping(p, c)` has returned 0, `vmtreeGetMapping` returns `c` for `p`, and for
-- every other page what it returned before. (The table is valid, pages lie below the mark of an
-- empty slot, and `c` fits in 16 bits.)
pub get_mapping-add_mapping :
    {t : Mappings} (p c q : ℕ)
    → IsValid t
    → p < empty_mapping
    → q < empty_mapping
    → c < 2 ^ 16
    → (add_mapping t p c).1 ≡ true
    → get_mapping (add_mapping t p c).0 q ≡ (if p == q then c else get_mapping t q)
unfolding add_mapping
get_mapping-add_mapping {t} p c q v hp hq hc done =
    elim (Option-cases (find_room (rounds t) t.slots t.max_mappings p (p % t.max_mappings))) [
      | inl e ↦ ground arith
      | inr (r, e) ↦
          let f = fill_slot-Filled t p c r hp hc in
          let (inside, old) =
            find_room-lt (rounds t) t.slots t.max_mappings p _ v.some_slots
              (next_loc-lt p t.max_mappings v.some_slots) e in
          let keep : IsValid (fill_slot t p c r) = fill_slot-IsValid t p c r v inside old hp in
          rw (e, add_mapping)
            (ground (
              arith,
              get_mapping-chain (fill_slot t p c r) q keep hq,
              get_mapping-chain t q v hq,
              chain-Filled_self f v e,
              chain-Filled_ne f v q old,
              found_page-Filled_ne f v q old,
              f.here_curr,
            ))
    ]

-- The slot that the probing visits after `k` steps.
abbrev pub probe_at : ℕ → ℕ → ℕ → ℕ → ℕ
probe_at max page loc zero = loc
probe_at max page loc (suc k) = probe_at max page ((loc + probe_offset page) % max) k

-- It stays inside the table.
probe_at-lt : (max page loc k : ℕ) → 0 < max → loc < max → probe_at max page loc k < max
probe_at-lt max page loc zero pos lt = lt
probe_at-lt max page loc (suc k) pos lt =
    let next = (loc + probe_offset page) % max in
    probe_at-lt max page next k pos (next_loc-lt (loc + probe_offset page) max pos)

abbrev pub IsTaken : Slot → ℕ → Type 0
IsTaken s page = (s.prev_page ≢ page) × (s.prev_page ≢ empty_mapping)

find_room-none :
    (n : ℕ) (m : Memory Slot) (max page loc k : ℕ)
    → find_room n m max page loc ≡ none
    → k < n
    → IsTaken (m (probe_at max page loc k)) page
unfolding find_room
find_room-none zero m max page loc k e h = elim h [ ]
find_room-none (suc n) m max page loc zero e h = ground arith
find_room-none (suc n) m max page loc (suc k) e h =
    ground (arith, find_room-none n m max page ((loc + probe_offset page) % max) k)

find_room-some :
    (n : ℕ) (m : Memory Slot) (max page loc : ℕ) {r : ℕ}
    → find_room n m max page loc ≡ some r
    → (k : ℕ) × (k < n) × (r ≡ probe_at max page loc k) × ¬ IsTaken (m r) page
unfolding find_room
find_room-some zero m max page loc e = cc
find_room-some (suc n) m max page loc {r = r} e =
    let next = (loc + probe_offset page) % max in
    elim (Bool-cases ((m loc).prev_page == page || (m loc).prev_page == empty_mapping)) [
      | inl hit ↦ (0, omega arith, ground arith, λ t. ground arith)
      | inr miss ↦
          let (k, lt, at, free) = find_room-some n m max page next {r = r} (ground arith) in
          (suc k, omega arith, at, free)
    ]

-- `vmtreeAddMapping` returns -1 exactly when each of the slots that it probes holds a mapping of
-- another page, and then it leaves the table as it was. (The table is valid: it has slots, and so
-- few that the `int16_t` of the probe does not wrap; each slot probed is one of the table.)
pub add_mapping-full :
    (t : Mappings) (p c : ℕ)
    → IsValid t
    → ((add_mapping t p c).1 ≡ false ↔ (
        (k : ℕ)
        → k < rounds t
        → IsTaken (t.slots (probe_at t.max_mappings p (p % t.max_mappings) k)) p))
      × ((k : ℕ) → probe_at t.max_mappings p (p % t.max_mappings) k < t.max_mappings)
      × ((add_mapping t p c).1 ≡ false → (add_mapping t p c).0 ≡ t)
unfolding add_mapping
add_mapping-full t p c v =
    let inside = λ (k : ℕ).
      probe_at-lt t.max_mappings p (p % t.max_mappings) k v.some_slots
        (next_loc-lt p t.max_mappings v.some_slots) in
    elim (Option-cases (find_room (rounds t) t.slots t.max_mappings p (p % t.max_mappings))) [
      | inl e ↦
          rw (e, add_mapping)
            (
              ((λ _ k h. find_room-none (rounds t) t.slots t.max_mappings p _ k e h), (λ _. refl)),
              inside,
              (λ _. refl),
            )
      | inr (r, e) ↦
          let (k, lt, at, free) = find_room-some (rounds t) t.slots t.max_mappings p _ e in
          rw (e, add_mapping)
            (((λ h. cc), (λ all. absurd (free (rw at (all k lt))))), inside, (λ h. cc))
    ]
