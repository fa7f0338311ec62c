-- ===== src/Nor/Insert.antt =====
-- `vmtreeInsertInterior` in src/vmtree.c: which child of the page a search is sent to afterwards.
use vmtree.Base.{
  ℕ, zero, suc, ◌+◌, ◌-◌, ◌≤◌, ◌<◌, ◌≡◌, ◌≢◌, refl, Bool, true, false, ◌||◌, none, some, arith,
  ◌==◌, if◌then◌else◌, inl, inr, Bool-cases, Option-cases,
}
use vmtree.BitArr.{bitarr_get, bitarr_set}
use vmtree.BitArr.Laws.{bitarr_set-IsBytes, bitarr_get-bitarr_set}
use vmtree.Nor.{NorPage, NorGeometry, interior_limit, is_live, write_slot}
use vmtree.Nor.Bits.{HasBitmaps}
use vmtree.Nor.Interior.{next_loop, free_loop, take_slot, insert_interior}
use vmtree.Nor.Next.{IsNext}

free_loop-finds :
    (rounds : ℕ) (p : NorPage) (c : ℕ) {r : ℕ}
    → free_loop rounds p c ≡ some r
    → (c ≤ r) × (r < c + rounds) × (bitarr_get p.bm1 r ≡ 1) × (bitarr_get p.bm2 r ≡ 1)
unfolding free_loop
free_loop-finds zero p c e = cc
free_loop-finds (suc rounds) p c {r = r} e =
    ground (arith, free_loop-finds rounds p (c + 1) {r = r})

-- The page after both records are written and the old one is made invalid.
abbrev replaced : NorPage → (first second loc key left right : ℕ) → NorPage
unfolding take_slot write_slot
replaced p first second loc key left right =
    let p1 = take_slot p first key left in
    let p2 = take_slot p1 second (p1.keys loc) right in record p2 { bm2 = bitarr_set p2.bm2 loc 0 }

-- What is in the locations of that page.
pub record Replaced (limit : ℕ) (p q : NorPage) (first second loc key left right : ℕ) : Type 0 where
  pub live :
      (i : ℕ)
      → i < limit
      → is_live q i
        ≡ (if i == first || i == second then true else if i == loc then false else is_live p i)
  pub keys :
      (i : ℕ)
      → q.keys i ≡ (if i == second then p.keys loc else if i == first then key else p.keys i)
  pub values :
      (i : ℕ)
      → q.values i ≡ (if i == second then right else if i == first then left else p.values i)

replaced-Replaced :
    (limit : ℕ) (p : NorPage) (first second loc key left right : ℕ)
    → HasBitmaps limit p
    → first < limit
    → second < limit
    → loc < limit
    → loc ≢ first
    → loc ≢ second
    → bitarr_get p.bm2 first ≡ 1
    → bitarr_get p.bm2 second ≡ 1
    → Replaced limit p (replaced p first second loc key left right) first second loc key left right
unfolding take_slot write_slot
replaced-Replaced limit p first second loc key left right h f s l nf ns b1 b2 =
    let one = bitarr_set-IsBytes p.bm1 first 0 (omega (arith, h.room1)) h.bytes1 in
    record {
      live = λ i lt. ground (
        arith,
        bitarr_get-bitarr_set (bitarr_set p.bm1 first 0) second i 0 (omega (arith, one.1, h.room1))
            one.0,
        bitarr_get-bitarr_set p.bm1 first i 0 (omega (arith, h.room1)) h.bytes1,
        bitarr_get-bitarr_set p.bm2 loc i 0 (omega (arith, h.room2)) h.bytes2,
      );
      keys = λ i. ground arith;
      values = λ i. ground arith;
    }

-- The page after a failure: the bit of the first record is set again.
abbrev restored : NorPage → (first key left : ℕ) → NorPage
unfolding take_slot write_slot
restored p first key left =
    let p1 = take_slot p first key left in record p1 { bm1 = bitarr_set p1.bm1 first 1 }

restored-live :
    (limit : ℕ) (p : NorPage) (first key left i : ℕ)
    → HasBitmaps limit p
    → first < limit
    → bitarr_get p.bm1 first ≡ 1
    → is_live (restored p first key left) i ≡ is_live p i
unfolding take_slot write_slot
restored-live limit p first key left i h f b1 =
    let one = bitarr_set-IsBytes p.bm1 first 0 (omega (arith, h.room1)) h.bytes1 in
    ground (
      arith,
      bitarr_get-bitarr_set (bitarr_set p.bm1 first 0) first i 1 (omega (arith, one.1, h.room1))
          one.0,
      bitarr_get-bitarr_set p.bm1 first i 0 (omega (arith, h.room1)) h.bytes1,
    )

-- The two ways `vmtreeInsertInterior` ends.
pub data Ends (limit : ℕ) (p : NorPage) (loc key left right : ℕ) : NorPage × Bool → Type 0 where
  done :
      (q : NorPage) (first second : ℕ)
      → Replaced limit p q first second loc key left right
      → (first < limit) × (second < limit) × (first ≢ second)
      → (is_live p first ≡ false) × (is_live p second ≡ false)
      → Ends limit p loc key left right (q, true)
  full :
      (q : NorPage)
      → ((i : ℕ) → is_live q i ≡ is_live p i)
      → ((i : ℕ) → is_live p i ≡ true → (q.keys i ≡ p.keys i) × (q.values i ≡ p.values i))
      → Ends limit p loc key left right (q, false)

module _ (limit : ℕ) (p : NorPage) (loc key left right first : ℕ) (h : HasBitmaps limit p) where
  ends_full :
      first < limit
      → bitarr_get p.bm1 first ≡ 1
      → Ends limit p loc key left right (restored p first key left, false)
  unfolding take_slot write_slot
  ends_full f b1 =
      full (restored p first key left) (λ i. restored-live limit p first key left i h f b1)
        (λ i live. elim (Bool-cases (first == i)) [
          | inl same ↦
              absurd (let e : first ≡ i = ground (arith, same) in ground (arith, rw e at b1, live))
          | inr other ↦ (ground (arith, other), ground (arith, other))
        ])

  ends_done :
      (second : ℕ)
      → IsNext limit p key loc
      → first < second
      → second < limit
      → bitarr_get p.bm1 first ≡ 1
      → bitarr_get p.bm2 first ≡ 1
      → bitarr_get (take_slot p first key left).bm1 second ≡ 1
      → bitarr_get (take_slot p first key left).bm2 second ≡ 1
      → Ends limit p loc key left right (replaced p first second loc key left right, true)
  unfolding take_slot write_slot
  ends_done second n lt s b1 b2 c1 c2 =
      let free1 : is_live p first ≡ false = ground (arith, b1) in
      let old : bitarr_get p.bm1 second ≡ 1 =
        ground (
          arith,
          c1,
          bitarr_get-bitarr_set p.bm1 first second 0 (omega (arith, h.room1)) h.bytes1,
        ) in
      let free2 : is_live p second ≡ false = ground (arith, old) in
      done (replaced p first second loc key left right) first second
        (replaced-Replaced limit p first second loc key left right h (omega arith) s n.inside
          (λ e. absurd (let bad : is_live p first ≡ true = rw e at n.live in cc))
          (λ e. absurd (let bad : is_live p second ≡ true = rw e at n.live in cc)) b2 c2)
        (omega arith, s, omega arith) (free1, free2)

module _ (g : NorGeometry) (p : NorPage) (key left right : ℕ)
    (h : HasBitmaps (interior_limit g) p) where
  abbrev start : ℕ
  start = (next_loop (interior_limit g) p key 0 none 0).0

  abbrev found : ℕ
  found = (next_loop (interior_limit g) p key 0 none 0).1

  pub insert_interior-Ends :
      IsNext (interior_limit g) p key found
      → Ends (interior_limit g) p found key left right (insert_interior g p key left right)
  unfolding insert_interior
  insert_interior-Ends n = elim (Option-cases (free_loop (interior_limit g - start) p start)) [
    | inl none_free ↦ rw (none_free, insert_interior) (full p (λ i. refl) (λ i live. (refl, refl)))
    | inr (first, one) ↦
        let at = free_loop-finds (interior_limit g - start) p start one in
        elim (Option-cases
          (free_loop (interior_limit g - (first + 1)) (take_slot p first key left) (first + 1))) [
            | inl no_second ↦
                rw (one, no_second, insert_interior)
                  (ends_full (interior_limit g) p found key left right first h (omega (arith, at))
                    at.2)
            | inr (second, two) ↦
                let behind =
                  free_loop-finds (interior_limit g - (first + 1)) (take_slot p first key left)
                    (first + 1) two in
                rw (one, two, insert_interior)
                  (ends_done (interior_limit g) p found key left right first h second n
                    (omega (arith, behind)) (omega (arith, behind)) at.2 at.3 behind.2 behind.3)
          ]
  ]
