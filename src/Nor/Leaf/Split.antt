-- ===== src/Nor/Leaf/Split.antt =====
-- The two halves of a leaf of OVERWRITE that `vmtreePutNorOverwrite` of src/vmtree.c splits.
use vmtree.Base.{
  ℕ, suc, ◌+◌, ◌-◌, ◌/◌, ◌%◌, ◌^◌, ◌≤◌, ◌<◌, ◌≡◌, refl, true, false, ◌&&◌, update, move, arith, ltb,
  leb, ◌==◌, if◌then◌else◌, inl, inr, Bool-cases, ap, tally,
}
use vmtree.Records.{Record}
use vmtree.Node.{mid_of}
use vmtree.Node.Search.Found.{Ascends, keys_of}
use vmtree.Nor.{NorPage, NorGeometry, leaf_limit, set_count_bits_leaf, insert_leaf, reset_block}
use vmtree.Nor.Bits.{HasBitmaps}
use vmtree.Nor.Sorted.{slots, tally_congr, shift_up-Grown}
use vmtree.Nor.Leaf.{split_left, split_right, promoted_key}
use vmtree.Nor.Leaf.Halves.{
  Ascends-from, Ascends-first, tally-suc, tally_parts, Grown-keys, Grown-keys_above,
  HasBitmaps-bits, IsCounted-bits, reset_block-IsHalf, set_count_bits_leaf-IsHalf, join, IsHalf,
  Halves,
}

module _ (g : NorGeometry) (p : NorPage) (key value count mid : ℕ) (h : HasBitmaps (leaf_limit g) p)
    (asc : Ascends count (keys_of (slots p))) (inside : mid + 1 < count)
    (fits : count ≤ leaf_limit g) where
  -- The records of the page from `mid` on, moved to the start.
  abbrev low_page : NorPage
  low_page = record p {
    keys = move (update p.keys 0 (p.keys mid)) 1 (mid + 1) (count - mid);
    values = move (update p.values 0 (p.values mid)) 1 (mid + 1) (count - mid);
  }

  low_page-slot : (i : ℕ) → i < count - mid → slots low_page i ≡ slots p (mid + i)
  low_page-slot i lt = elim (Bool-cases (i == 0)) [
    | inl first ↦
        (let e : i ≡ 0 = ground (arith, first) in
          let f : mid + 0 ≡ mid = omega arith in rw (e, f) refl)
    | inr other ↦
        (let a : (leb 1 i && ltb i (1 + (count - mid))) ≡ true = ground (arith, other, lt) in
          let e : mid + 1 + (i - 1) ≡ mid + i = ground (arith, other) in
          let b : (0 == mid + i) ≡ false = ground (arith, other) in rw (a, e, b) refl)
  ]

  abbrev high_page : NorPage
  high_page = record p {
    keys = move p.keys 0 (mid + 1) (count - mid - 1);
    values = move p.values 0 (mid + 1) (count - mid - 1);
  }

  high_page-slot : (i : ℕ) → i < count - mid - 1 → slots high_page i ≡ slots p (mid + 1 + i)
  high_page-slot i lt =
      let a : (leb 0 i && ltb i (0 + (count - mid - 1))) ≡ true = ground (arith, lt) in
      let e : mid + 1 + (i - 0) ≡ mid + 1 + i = omega arith in rw (a, e) refl

  abbrev new_record : Record
  new_record = record { key = key; value = value }

  abbrev counted : NorPage
  counted = set_count_bits_leaf g p (mid + 1)

  counted-IsHalf : IsHalf g (mid + 1) (slots p) counted
  counted-IsHalf = set_count_bits_leaf-IsHalf g p (mid + 1) h (omega arith)

  low-Halves :
      key < p.keys mid
      → Halves g p
          (reset_block g (insert_leaf counted mid key value) (mid + 1))
          (reset_block g (set_count_bits_leaf g low_page (count - mid)) (count - mid))
          new_record
          count
          mid
          (p.keys mid)
  unfolding insert_leaf
  low-Halves low =
      let c = counted-IsHalf in
      let w = shift_up-Grown mid counted key value (
        Ascends-first (slots counted) (slots p) mid count asc (omega arith)
          (λ i lt. c.holds i (omega arith))) in
      let a = insert_leaf counted mid key value in
      join g p new_record count mid (p.keys mid) a low_page (reset_block g a (mid + 1))
        (reset_block g (set_count_bits_leaf g low_page (count - mid)) (count - mid))
        (reset_block-IsHalf g (mid + 1) (slots a) a (record {
          counted = IsCounted-bits (leaf_limit g) (mid + 1) counted a w.bits c.counted;
          holds = λ i lt. refl;
        }))
        (reset_block-IsHalf g (count - mid) (slots low_page)
          (set_count_bits_leaf g low_page (count - mid))
          (set_count_bits_leaf-IsHalf g low_page (count - mid)
            (HasBitmaps-bits (leaf_limit g) p low_page (refl, refl) h) (omega arith)))
        (λ i j le lt. w.ascends i j le (omega arith))
        (Ascends-from (slots low_page) (slots p) mid (count - mid) count asc (omega arith)
          low_page-slot)
        (λ f. omega (
          arith,
          tally-suc f (slots a) mid,
          w.counts f,
          tally_congr f (slots counted) (slots p) mid (λ i lt. c.holds i (omega arith)),
          tally_congr f (slots low_page) (λ i. slots p (mid + i)) (count - mid) low_page-slot,
          tally_parts f (slots p) mid count (omega arith),
        ))
        (λ i lt.
          Grown-keys w (omega arith)
            (λ j k. omega (
              arith,
              ap (λ (x : Record). x.key) (c.holds j (omega arith)),
              asc j mid (omega arith) (omega arith),
            ))
            i (omega arith))
        (λ i lt. omega (
          arith,
          ap (λ (x : Record). x.key) (low_page-slot i lt),
          asc mid (mid + i) (omega arith) (omega arith),
        ))

  high-Halves :
      (promoted : ℕ)
      → p.keys mid ≤ key
      → promoted ≡ (if ltb key (p.keys (mid + 1)) then key else p.keys (mid + 1))
      → Halves g p
          (reset_block g counted (mid + 1))
          (reset_block g
            (set_count_bits_leaf g
              (insert_leaf high_page (count - mid - 1) key value)
              (count - mid))
            (count - mid))
          new_record
          count
          mid
          promoted
  unfolding insert_leaf
  high-Halves promoted high e =
      let c = counted-IsHalf in
      let n = count - mid - 1 in
      let w = shift_up-Grown n high_page key value (
        Ascends-from (slots high_page) (slots p) (mid + 1) n count asc (omega arith)
          high_page-slot) in
      let b = insert_leaf high_page n key value in
      let size : count - mid ≡ suc n = omega arith in
      join g p new_record count mid promoted counted b (reset_block g counted (mid + 1))
        (reset_block g (set_count_bits_leaf g b (count - mid)) (count - mid))
        (reset_block-IsHalf g (mid + 1) (slots counted) counted
          (record { counted = c.counted; holds = λ i lt. refl }))
        (reset_block-IsHalf g (count - mid) (slots b) (set_count_bits_leaf g b (count - mid)) (
          set_count_bits_leaf-IsHalf g b (count - mid) (HasBitmaps-bits (leaf_limit g) p b w.bits h)
            (omega arith)))
        (Ascends-first (slots counted) (slots p) (mid + 1) count asc (omega arith) c.holds)
        (λ i j le lt. w.ascends i j le (omega arith))
        (λ f. omega (
          arith,
          same_tally f b n size,
          w.counts f,
          tally_congr f (slots counted) (slots p) (mid + 1) c.holds,
          tally_congr f (slots high_page) (λ i. slots p (mid + 1 + i)) n high_page-slot,
          tally_parts f (slots p) (mid + 1) count (omega arith),
          rest f,
        ))
        (λ i lt. ground (
          arith,
          e,
          high,
          ap (λ (x : Record). x.key) (c.holds i lt),
          asc i mid (omega arith) (omega arith),
          asc i (mid + 1) (omega arith) (omega arith),
        ))
        (λ i lt.
          Grown-keys_above w (ground (arith, e))
            (λ j k. ground (
              arith,
              e,
              ap (λ (x : Record). x.key) (high_page-slot j k),
              asc (mid + 1) (mid + 1 + j) (omega arith) (omega arith),
            ))
            i (omega arith))
    where
      same_tally :
          (f : Record → ℕ) (q : NorPage) (n : ℕ)
          → count - mid ≡ suc n
          → tally f (slots q) (count - mid) ≡ tally f (slots q) (suc n)
      same_tally f q n e = rw e refl

      rest :
          (f : Record → ℕ)
          → tally f (λ i. slots p (mid + 1 + i)) (count - (mid + 1))
            ≡ tally f (λ i. slots p (mid + 1 + i)) (count - mid - 1)
      rest f = (let e : count - (mid + 1) ≡ count - mid - 1 = omega arith in rw e refl)

-- `vmtreePutNorOverwrite` on a full leaf of OVERWRITE, from the sort on: a page of three to 255
-- records in order is split in two pages, of half of the records and one more, and of the others. In
-- each, the records stand in order in the first locations, which are counted by the bitmaps, and all
-- other locations are empty; the two have the old records and the new one, none lost and none
-- doubled (whatever `f` counts of a record, they count the same together); and the key for the
-- parent separates them. (The bitmaps have their bits.)
pub split_left-Halves :
    (g : NorGeometry) (p : NorPage) (key value count : ℕ)
    → HasBitmaps (leaf_limit g) p
    → Ascends count (keys_of (slots p))
    → 3 ≤ count
    → count < 256
    → count ≤ leaf_limit g
    → Halves g p
        (split_left g p count key value)
        (split_right g p count key value)
        (record { key = key; value = value })
        count
        (count / 2)
        (promoted_key p count key)
unfolding split_left split_right promoted_key mid_of
split_left-Halves g p key value count h asc big small fits =
    let mid = count / 2 in
    let m : count / 2 % 2 ^ 8 ≡ mid = omega arith in
    elim (Bool-cases (ltb key (p.keys mid))) [
      | inl low ↦
          rw (m, low)
            (low-Halves g p key value count mid h asc (omega arith) fits (ground (arith, low)))
      | inr high ↦
          rw (m, high)
            (high-Halves g p key value count mid h asc (omega arith) fits
              (if ltb key (p.keys (mid + 1)) then key else p.keys (mid + 1)) (ground (arith, high))
              refl)
    ]
