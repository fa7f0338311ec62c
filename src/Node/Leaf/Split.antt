-- ===== src/Node/Leaf/Split.antt =====
-- A full page: the two pages hold the old records and the new one, in order.
use vmtree.Base.{
  ℕ, suc, ◌+◌, ◌-◌, ◌/◌, ◌≤◌, ◌<◌, ◌≡◌, arith, Memory, update, move, ltb, ◌==◌, if◌then◌else◌,
  window_parts, make_room, make_room-inserted, make_room-above, leb, ◌&&◌, ◌*◌, window-inserted,
  inserted, insert_at, ◌∙◌, Bool-cases, inl, inr, ◌++◌, true, false, ap,
}
use vmtree.Records.{Record}
use vmtree.Node.{Page, get_count, mid_of}
use vmtree.Node.Search.{Place, after}
use vmtree.Node.Search.Found.{Ascends, keys_of, SplitsAt}
use vmtree.Node.Leaf.Insert.{contents, inserted-Ascends}
use vmtree.Node.Leaf.{
  goes_left, low_left, low_right, high_left, high_right, split_left, split_right, promoted_key,
}

mid_of-half : (n : ℕ) → n < 256 → mid_of n ≡ n / 2
unfolding mid_of
mid_of-half n h = omega arith

-- Slot by slot: `m` is the old page of `n` records, `mid` where it is split, `i` the place.
module _ (m left : Memory Record) (i n mid : ℕ) (r : Record) where
  low_right-slot :
      (j : ℕ)
      → i ≤ mid
      → ((k : ℕ) → mid < k → left k ≡ m k)
      → j < n - mid
      → move (update left 0 (m mid)) 1 (mid + 1) (n - mid) j ≡ inserted m i r (mid + 1 + j)
  low_right-slot j h above k =
      same (mid + 1 + (j - 1)) (mid + 1 + j - 1) (omega arith) (λ p. omega arith) (λ p. omega arith)
    where
      same :
          (c d : ℕ)
          → (d ≡ mid + j)
          → (1 ≤ j → c ≡ d)
          → (1 ≤ j → mid < c)
          → (if leb 1 j && ltb j (1 + (n - mid))
              then update left 0 (m mid) c
              else update left 0 (m mid) j)
            ≡ (if ltb (mid + 1 + j) i then m (mid + 1 + j) else if mid + 1 + j == i then r else m d)
      same c d e f g = ground (arith, above c)

  high_right-slot :
      (child j : ℕ)
      → i ≡ child + 1
      → mid ≤ child
      → child < n
      → n ≤ 2 * mid + 1
      → j < n - mid
      → move
          (update (if ltb mid child then move m 0 (mid + 1) (child - mid) else m) (child - mid) r)
          (child - mid + 1)
          (child + 1)
          (n - child - 1)
          j
        ≡ inserted m i r (mid + 1 + j)
  high_right-slot child j e lo hi half k = elim (Bool-cases (ltb mid child)) [
    | inl some ↦ rw some (ground arith)
    | inr none ↦ rw none (ground arith)
  ]

-- What the two pages of a split hold: `n` old records and the new one, split after `mid + 1`.
record Halves (p : Page) (place : Place) (r : Record) (left right : Page) : Type 0 where
  left_slot :
      (j : ℕ) → j ≤ mid_of (get_count p) → left.records j ≡ inserted p.records (after place) r j
  right_slot :
      (j : ℕ)
      → j < get_count p - mid_of (get_count p)
      → right.records j ≡ inserted p.records (after place) r (mid_of (get_count p) + 1 + j)
  left_count : get_count left ≡ mid_of (get_count p) + 1
  right_count : get_count right ≡ get_count p - mid_of (get_count p)
  promoted : promoted_key p place r ≡ (right.records 0).key

-- The buffer from which the second page is made: the first page after it was written, when its id
-- has changed.
abbrev pub second_page : Page → Place → Record → ℕ → Page
second_page p place r id = split_right p (record (split_left p place r) { id = id }) place r

module _ (p : Page) (place : Place) (r : Record) (id : ℕ) (fits : after place ≤ get_count p)
    (pos : 0 < get_count p) (small : get_count p < 256) where
  low-Halves :
      goes_left (get_count p) place ≡ true
      → Halves p place r (low_left p place r) (
          low_right
            (record (low_left p place r) { id = id })
            (get_count p)
            (p.records (mid_of (get_count p))))
  unfolding low_left low_right promoted_key
  low-Halves go =
      let mid = mid_of (get_count p) in
      let half = mid_of-half (get_count p) small in
      let i = after place in
      let at_left : i ≤ mid = ground arith in
      let left = update (make_room p.records i mid) i r in
      record {
        left_slot = λ j h. make_room-inserted p.records i mid r at_left j h;
        right_slot = λ j h.
            low_right-slot p.records left i (get_count p) mid r j at_left
              (make_room-above p.records i mid r at_left) h;
        left_count = omega arith;
        right_count = omega arith;
        promoted = ground arith;
      }

  high-Halves :
      goes_left (get_count p) place ≡ false
      → Halves p place r
          (high_left p)
          (high_right (record (high_left p) { id = id }) (get_count p) place r)
  unfolding high_left high_right promoted_key
  high-Halves go =
      let mid = mid_of (get_count p) in
      let half = mid_of-half (get_count p) small in
      let i = after place in
      let right : mid < i = ground arith in
      record {
        left_slot = λ j h. ground arith;
        right_slot = λ j h.
            high_right-slot p.records p.records i (get_count p) mid r (i - 1) j (omega arith)
              (omega arith) (omega arith) (omega arith) h;
        left_count = omega arith;
        right_count = omega arith;
        promoted = ground arith;
      }

  split-Halves : Halves p place r (split_left p place r) (second_page p place r id)
  unfolding split_left split_right
  split-Halves = elim (Bool-cases (goes_left (get_count p) place)) [
    | inl left ↦ rw left (low-Halves left)
    | inr right ↦ rw right (high-Halves right)
  ]

  -- The two pages that `vmtreePutRecord` writes when it splits a page of 1 to 255 records, at a
  -- place in the page, hold between them exactly the old records and the new one, in order; neither
  -- page is empty, and the key for the parent is the first key of the second page. (The first write
  -- has set the id of the page buffer to `id`.)
  pub split-contents :
      (contents (split_left p place r) ++ contents (second_page p place r id)
        ≡ insert_at (after place) r (contents p))
      × (0 < get_count (split_left p place r))
      × (0 < get_count (second_page p place r id))
      × (promoted_key p place r ≡ ((second_page p place r id).records 0).key)
  split-contents =
      let h = split-Halves in
      let mid = mid_of (get_count p) in
      let half = mid_of-half (get_count p) small in
      (
        rw (h.left_count, h.right_count)
            (window_parts (inserted p.records (after place) r) (split_left p place r).records
                (second_page p place r id).records (mid + 1) (get_count p - mid) (suc (get_count p))
                (omega arith) (λ j l. h.left_slot j (omega arith)) (λ j l. h.right_slot j l)
              ∙ window-inserted p.records (after place) (get_count p) r fits),
        omega (arith, h.left_count),
        omega (arith, h.right_count),
        h.promoted,
      )

  -- If the records of a page of 1 to 255 records ascend by key and the place splits them at the new
  -- key, then after the split each page ascends, no key of the first page is greater than the key
  -- for the parent, and none of the second page is less.
  pub split-separates :
      SplitsAt (get_count p) (keys_of p.records) r.key (after place)
      → Ascends (get_count p) (keys_of p.records)
      → Ascends (get_count (split_left p place r)) (keys_of (split_left p place r).records)
        × Ascends
            (get_count (second_page p place r id))
            (keys_of (second_page p place r id).records)
        × ((i : ℕ)
            → i < get_count (split_left p place r)
            → ((split_left p place r).records i).key ≤ promoted_key p place r)
        × ((i : ℕ)
            → i < get_count (second_page p place r id)
            → promoted_key p place r ≤ ((second_page p place r id).records i).key)
  split-separates s asc =
      let h = split-Halves in
      let half = mid_of-half (get_count p) small in
      (
        (λ i j a b. order_left i j a b),
        (λ i j a b. order_right i j a b),
        (λ i a. omega (arith, h.promoted, across i a)),
        (λ i a. omega (arith, h.promoted, order_right 0 i (omega arith) a)),
      )
    where
      h' : Halves p place r (split_left p place r) (second_page p place r id)
      h' = split-Halves

      half' : mid_of (get_count p) ≡ get_count p / 2
      half' = mid_of-half (get_count p) small

      left_key :
          (i : ℕ)
          → i < get_count (split_left p place r)
          → ((split_left p place r).records i).key ≡ (inserted p.records (after place) r i).key
      left_key i a = ap (λ (x : Record). x.key) (h'.left_slot i (omega (arith, h'.left_count)))

      right_key :
          (i : ℕ)
          → i < get_count (second_page p place r id)
          → ((second_page p place r id).records i).key
            ≡ (inserted p.records (after place) r (mid_of (get_count p) + 1 + i)).key
      right_key i a = ap (λ (x : Record). x.key) (h'.right_slot i (omega (arith, h'.right_count)))

      order_left :
          Ascends (get_count (split_left p place r)) (keys_of (split_left p place r).records)
      order_left i j a b = omega (
        arith,
        left_key i (omega arith),
        left_key j b,
        inserted-Ascends p.records (get_count p) (after place) r s asc i j a
            (omega (arith, h'.left_count, half')),
      )

      order_right :
          Ascends
            (get_count (second_page p place r id))
            (keys_of (second_page p place r id).records)
      order_right i j a b = omega (
        arith,
        right_key i (omega arith),
        right_key j b,
        inserted-Ascends p.records (get_count p) (after place) r s asc
            (mid_of (get_count p) + 1 + i) (mid_of (get_count p) + 1 + j) (omega arith)
            (omega (arith, h'.right_count, half')),
      )

      across :
          (i : ℕ)
          → i < get_count (split_left p place r)
          → ((split_left p place r).records i).key ≤ ((second_page p place r id).records 0).key
      across i a = omega (
        arith,
        left_key i a,
        right_key 0 (omega (arith, h'.right_count, half')),
        inserted-Ascends p.records (get_count p) (after place) r s asc i
            (mid_of (get_count p) + 1 + 0) (omega (arith, h'.left_count))
            (omega (arith, h'.right_count, half')),
      )
