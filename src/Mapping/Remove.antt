-- ===== src/Mapping/Remove.antt =====
-- Lookups after `vmtreeDeleteMapping`, and the mapping that it can leave behind.
use vmtree.Base.{
  ℕ, zero, suc, ◌+◌, ◌-◌, ◌%◌, ◌<◌, ◌≡◌, refl, ◌≢◌, Option, none, some, Memory, update, ◌==◌, arith,
  Option-cases, Bool-cases, inl, inr, ap, ◌∙◌,
}
use vmtree.Mapping.{
  Slot, Mappings, empty_mapping, probe_offset, rounds, find_slot, get_mapping, clear_slot,
  delete_mapping,
}
use vmtree.Mapping.Count.{IsValid, used-pos, find_slot-lt, next_loc-lt, clear_slot-IsValid}
use vmtree.Mapping.Laws.{find_slot_congr, probe_at, chain, found_page, get_mapping-chain}

abbrev cleared : Mappings → ℕ → Slot
cleared t r = record (t.slots r) { prev_page = empty_mapping }

module _ (t : Mappings) (p q r : ℕ) (found : (t.slots r).prev_page ≡ p) (ne : p ≢ q)
    (h : q < empty_mapping) where
  chain-clear_slot : chain (clear_slot t r) q ≡ chain t q
  unfolding clear_slot
  chain-clear_slot =
      find_slot_congr (rounds t) t.slots (update t.slots r (cleared t r)) t.max_mappings q _
        (λ j. ground arith)

  found_page-clear_slot :
      IsValid t → found_page (clear_slot t r).slots q (chain t q) ≡ found_page t.slots q (chain t q)
  unfolding clear_slot
  found_page-clear_slot v = elim (Option-cases (chain t q)) [
    | inl e ↦ rw e
    | inr (s, e) ↦
        let (inside, holds) =
          find_slot-lt (rounds t) t.slots t.max_mappings q _ v.some_slots
            (next_loc-lt q t.max_mappings v.some_slots) e in
        rw e (ground arith)
  ]

-- `vmtreeDeleteMapping(p)` leaves what `vmtreeGetMapping` returns for every other page. (The table
-- is valid, and both pages lie below the mark of an empty slot.)
pub get_mapping-delete_mapping_ne :
    {t : Mappings} (p q : ℕ)
    → IsValid t
    → p < empty_mapping
    → q < empty_mapping
    → p ≢ q
    → get_mapping (delete_mapping t p) q ≡ get_mapping t q
unfolding delete_mapping
get_mapping-delete_mapping_ne {t} p q v hp hq ne = elim (Bool-cases (t.num_mappings == 0)) [
  | inl e ↦ rw (e, delete_mapping)
  | inr e ↦
      elim (Option-cases (find_slot t.max_tries t.slots t.max_mappings p (p % t.max_mappings))) [
        | inl e2 ↦ rw (e, e2, delete_mapping)
        | inr (r, e2) ↦
            let (inside, found) =
              find_slot-lt t.max_tries t.slots t.max_mappings p _ v.some_slots
                (next_loc-lt p t.max_mappings v.some_slots) e2 in
            let keep = clear_slot-IsValid t r v inside (omega arith) in
            rw (e, e2, delete_mapping)
              (ground (
                arith,
                get_mapping-chain (clear_slot t r) q keep hq,
                get_mapping-chain t q v hq,
                chain-clear_slot t p q r found ne hq,
                found_page-clear_slot t p q r found ne hq v,
              ))
      ]
]

-- A search that meets the page returns a slot that holds it, and one that fails met it nowhere.
find_slot-probe :
    (n : ℕ) (m : Memory Slot) (max page loc k : ℕ)
    → k < n
    → (m (probe_at max page loc k)).prev_page ≡ page
    → find_slot n m max page loc ≢ none
unfolding find_slot
find_slot-probe zero m max page loc k h e = elim h [ ]
find_slot-probe (suc n) m max page loc zero h e = ground arith
find_slot-probe (suc n) m max page loc (suc k) h e =
    ground (arith, find_slot-probe n m max page ((loc + probe_offset page) % max) k)

module _ {t : Mappings} (p r : ℕ) (v : IsValid t) (hp : p < empty_mapping) (tries : 0 < t.max_tries)
    (first : chain t p ≡ some r) where
  delete_mapping-clear_slot : delete_mapping t p ≡ clear_slot t r
  unfolding delete_mapping
  delete_mapping-clear_slot =
      let (inside, found) =
        find_slot-lt (rounds t) t.slots t.max_mappings p _ v.some_slots
          (next_loc-lt p t.max_mappings v.some_slots) first in
      let same : suc (t.max_tries - 1) ≡ t.max_tries = omega arith in
      let here : find_slot t.max_tries t.slots t.max_mappings p (p % t.max_mappings) ≡ some r =
        rw same at first in
      ground (arith, here, used-pos t.slots r t.max_mappings inside)

  -- The search for `p` after the slot `r` is cleared.
  abbrev again : Option ℕ
  again = find_slot (rounds t) (clear_slot t r).slots t.max_mappings p (p % t.max_mappings)

  again-chain : chain (clear_slot t r) p ≡ again
  unfolding clear_slot
  again-chain = refl

  get_mapping-cleared :
      get_mapping (delete_mapping t p) p ≡ found_page (clear_slot t r).slots p again
  get_mapping-cleared =
      let (inside, found) =
        find_slot-lt (rounds t) t.slots t.max_mappings p _ v.some_slots
          (next_loc-lt p t.max_mappings v.some_slots) first in
      rw (delete_mapping-clear_slot, ← again-chain)
        (get_mapping-chain (clear_slot t r) p (clear_slot-IsValid t r v inside (omega arith)) hp)

  clear_slot-other :
      (s : ℕ)
      → ((clear_slot t r).slots s).prev_page ≡ p
      → (s ≢ r) × (((clear_slot t r).slots s) ≡ t.slots s)
  unfolding clear_slot
  clear_slot-other s e = ground arith

  again-old :
      (s : ℕ)
      → again ≡ some s
      → (s ≢ r) × ((t.slots s).prev_page ≡ p) × ((clear_slot t r).slots s ≡ t.slots s)
  again-old s e =
      let (inside, found) =
        find_slot-lt (rounds t) (clear_slot t r).slots t.max_mappings p _ v.some_slots
          (next_loc-lt p t.max_mappings v.some_slots) e in
      let (ne, same) = clear_slot-other s found in (ne, rw same at found, same)

  clear_slot-ne : (s : ℕ) → s ≢ r → (clear_slot t r).slots s ≡ t.slots s
  unfolding clear_slot
  clear_slot-ne s ne = ground arith

  -- If `p` stands in one slot only, then after `vmtreeDeleteMapping(p)` the page `p` has no
  -- mapping: `vmtreeGetMapping` returns it unchanged. (The table is valid, `p` lies below the mark
  -- of an empty slot, and is found in the slot `r`.)
  pub get_mapping-delete_mapping_self :
      ((s : ℕ) → (t.slots s).prev_page ≡ p → s ≡ r) → get_mapping (delete_mapping t p) p ≡ p
  get_mapping-delete_mapping_self unique = elim (Option-cases again) [
    | inl e ↦ get_mapping-cleared ∙ ap (found_page (clear_slot t r).slots p) e
    | inr (s, e) ↦ absurd ((again-old s e).0 (unique s (again-old s e).1))
  ]

  -- If some other slot of the probed chain holds `p` too, then after `vmtreeDeleteMapping(p)`
  -- `vmtreeGetMapping(p)` still returns the page that such a slot stores. (The table is valid, `p`
  -- lies below the mark of an empty slot, and `r` is the first slot of the chain that holds it.)
  pub get_mapping-delete_mapping_stale :
      (k : ℕ)
      → k < t.max_tries
      → probe_at t.max_mappings p (p % t.max_mappings) k ≢ r
      → (t.slots (probe_at t.max_mappings p (p % t.max_mappings) k)).prev_page ≡ p
      → (s : ℕ) × (s ≢ r)
        × ((t.slots s).prev_page ≡ p)
        × (get_mapping (delete_mapping t p) p ≡ (t.slots s).curr_page)
  get_mapping-delete_mapping_stale k h ne e =
      let at = probe_at t.max_mappings p (p % t.max_mappings) k in
      let met =
        find_slot-probe (rounds t) (clear_slot t r).slots t.max_mappings p (p % t.max_mappings) k
          (omega arith) (rw (clear_slot-ne at ne) e) in
      elim (Option-cases again) [
        | inl e2 ↦ absurd (met e2)
        | inr (s, e2) ↦
            let (other, holds, same) = again-old s e2 in
            (
              s,
              other,
              holds,
              get_mapping-cleared
                  ∙ ap (found_page (clear_slot t r).slots p) e2
                  ∙ ap (λ (x : Slot). x.curr_page) same,
            )
      ]
