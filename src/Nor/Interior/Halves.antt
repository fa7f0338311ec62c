-- ===== src/Nor/Interior/Halves.antt =====
-- The two pages of a split of an interior page of OVERWRITE in src/vmtree.c.
use vmtree.Base.{
  ℕ, ◌+◌, ◌-◌, ◌/◌, ◌≤◌, ◌<◌, ◌≡◌, ◌≢◌, refl, true, false, Memory, update, move, ◌==◌, arith, ◌∙◌,
  ap, sym, Bool-cases, inl, inr, subst,
}
use vmtree.Node.{mid_of}
use vmtree.Nor.{NorPage, NorGeometry, interior_limit, set_count_bits_interior, reset_block_interior}
use vmtree.Nor.Bits.{HasBitmaps}
use vmtree.Nor.Interior.{insert_interior_new}
use vmtree.Nor.Interior.Split.{
  goes_left, goes_first, split_left, split_right, low_right, high_right, promoted_key,
}
use vmtree.Nor.Leaf.Halves.{HasBitmaps-bits}
use vmtree.Nor.Interior.Parts.{
  with_key, with_children, Holds, inserted-Holds, moved-Holds, Holds-same, Holds-reset,
  set_count_bits-Counted,
}

-- A sorted page of `count + 1` records, and the place of the new key among them.
pub record At (g : NorGeometry) (p : NorPage) (count key c : ℕ) : Type 0 where
  pub maps : HasBitmaps (interior_limit g) p
  pub fits : count + 1 ≤ interior_limit g
  pub several : 1 ≤ count
  pub few : count < 256
  pub inside : c ≤ count
  pub below : (i : ℕ) → i < c → p.keys i ≤ key
  pub above : (i : ℕ) → c ≤ i → i ≤ count → key < p.keys i

module _ (g : NorGeometry) (p : NorPage) (count key left right c : ℕ) (at : At g p count key c)
    (middle : mid_of count ≡ count / 2) where
  abbrev mid : ℕ
  mid = mid_of count

  -- The keys and the pages below, with the new ones.
  abbrev keys : Memory ℕ
  keys = with_key p.keys c key

  abbrev children : Memory ℕ
  children = with_children p.values c left right

  left_low :
      key < p.keys mid
      → Holds g
          (reset_block_interior g
            (insert_interior_new (set_count_bits_interior g p (mid + 2)) (mid + 1) key left right)
            (mid + 2))
          (mid + 2)
          keys
          children
  left_low low =
      let q = set_count_bits_interior g p (mid + 2) in
      let near : c ≤ mid = ground (arith, low, at.below mid) in
      let s = set_count_bits-Counted g p (mid + 2) at.maps (omega (arith, at.fits, at.several)) in
      let more : mid + 1 + 1 ≡ mid + 2 = omega arith in
      Holds-reset g (insert_interior_new q (mid + 1) key left right) (mid + 2) keys children (
        subst (λ n. Holds g (insert_interior_new q (mid + 1) key left right) n keys children) more
          (inserted-Holds g p q (mid + 1) key left right c (rw more s) (omega arith) at.below
            (λ k. at.above c (omega arith) at.inside)))

  left_high :
      p.keys mid ≤ key
      → Holds g
          (reset_block_interior g (set_count_bits_interior g p (mid + 1)) (mid + 1))
          (mid + 1)
          keys
          children
  left_high high =
      let q = set_count_bits_interior g p (mid + 1) in
      let far : mid < c = ground (arith, high, at.above mid) in
      let s = set_count_bits-Counted g p (mid + 1) at.maps (omega (arith, at.fits)) in
      Holds-reset g q (mid + 1) keys children (
        moved-Holds g p q q (mid + 1) keys children s (refl, refl)
          (λ i lt.
            (rw (s.keys) (ground (arith, far, lt)), rw (s.values) (ground (arith, far, lt)))))

  keys_beyond : (i : ℕ) → c ≤ mid → keys (i + (mid + 2)) ≡ p.keys (i + (mid + 1))
  keys_beyond i near =
      let e : i + (mid + 2) - 1 ≡ i + (mid + 1) = omega arith in ground (arith, near, ap p.keys e)

  children_beyond : (i : ℕ) → c ≤ mid → children (i + (mid + 2)) ≡ p.values (i + (mid + 1))
  children_beyond i near =
      let e : i + (mid + 2) - 1 ≡ i + (mid + 1) = omega arith in ground (arith, near, ap p.values e)

  right_low :
      key < p.keys mid
      → Holds g
          (low_right g p count)
          (count - mid)
          (λ i. keys (i + (mid + 2)))
          (λ i. children (i + (mid + 2)))
  unfolding low_right
  right_low low =
      let q = set_count_bits_interior g p (count - mid) in
      let near : c ≤ mid = ground (arith, low, at.below mid) in
      let s = set_count_bits-Counted g p (count - mid) at.maps (omega (arith, at.fits)) in
      let moved : NorPage = record q {
        keys = move (update q.keys 0 (p.keys (mid + 1))) 1 (mid + 2) (count - mid - 1);
        values = move (update q.values 0 (p.values (mid + 1))) 1 (mid + 2) (count - mid - 1);
      } in
      Holds-reset g moved (count - mid) (λ i. keys (i + (mid + 2))) (λ i. children (i + (mid + 2)))
        (moved-Holds g p q moved (count - mid) (λ i. keys (i + (mid + 2)))
          (λ i. children (i + (mid + 2))) s (refl, refl)
          (λ i lt. (
            rw (s.keys) (behind p.keys i near lt ∙ sym (keys_beyond i near)),
            rw (s.values) (behind p.values i near lt ∙ sym (children_beyond i near)),
          )))
    where
      behind :
          (m : Memory ℕ) (i : ℕ)
          → c ≤ mid
          → i < count - mid
          → move (update m 0 (m (mid + 1))) 1 (mid + 2) (count - mid - 1) i ≡ m (i + (mid + 1))
      behind m i near lt = elim (Bool-cases (i == 0)) [
        | inl e ↦ (let same : i ≡ 0 = ground (arith, e) in ground arith)
        | inr e ↦
            (let at : mid + 2 + (i - 1) ≡ i + (mid + 1) = ground (arith, e) in
              ground (arith, e, ap m at))
      ]

  -- The second page, when the new key goes there: the place of the key in it is `c - (mid + 1)`.
  right_first :
      p.keys mid ≤ key
      → key < p.keys (mid + 1)
      → Holds g
          (high_right g p count key left right)
          (count - mid + 1)
          (λ i. keys (i + (mid + 1)))
          (λ i. children (i + (mid + 1)))
  unfolding high_right
  right_first high first =
      let q = set_count_bits_interior g p (count - mid + 1) in
      let far : mid < c = ground (arith, high, at.above mid) in
      let here : c ≡ mid + 1 = ground (arith, far, first, at.below (mid + 1)) in
      let s =
        set_count_bits-Counted g p (count - mid + 1) at.maps (omega (arith, at.fits, at.several)) in
      let values = move q.values 1 (mid + 1) (count - mid) in
      let moved : NorPage = record q {
        keys = update (move q.keys 1 (mid + 1) (count - mid)) 0 key;
        values = update (update values 0 left) 1 right;
      } in
      let holds =
        Holds-reset g moved (count - mid + 1) (λ i. keys (i + (mid + 1)))
          (λ i. children (i + (mid + 1)))
          (moved-Holds g p q moved (count - mid + 1) (λ i. keys (i + (mid + 1)))
            (λ i. children (i + (mid + 1))) s (refl, refl)
            (λ i lt. (rw (s.keys) (key_at i here lt), rw (s.values) (child_at i here lt)))) in
      let test : goes_first p count key ≡ true = ground (arith, first) in rw test holds
    where
      key_at :
          (i : ℕ)
          → c ≡ mid + 1
          → i < count - mid + 1
          → update (move p.keys 1 (mid + 1) (count - mid)) 0 key i ≡ keys (i + (mid + 1))
      key_at i e lt =
          let at : i ≢ 0 → mid + 1 + (i - 1) ≡ i + (mid + 1) - 1 = λ ne. omega arith in
          ground (arith, λ (ne : i ≢ 0). ap p.keys (at ne))

      child_at :
          (i : ℕ)
          → c ≡ mid + 1
          → i < count - mid + 1
          → update (update (move p.values 1 (mid + 1) (count - mid)) 0 left) 1 right i
            ≡ children (i + (mid + 1))
      child_at i e lt =
          let at : i ≢ 0 → mid + 1 + (i - 1) ≡ i + (mid + 1) - 1 = λ ne. omega arith in
          ground (arith, λ (ne : i ≢ 0). ap p.values (at ne))

  right_behind :
      p.keys mid ≤ key
      → p.keys (mid + 1) ≤ key
      → Holds g
          (high_right g p count key left right)
          (count - mid + 1)
          (λ i. keys (i + (mid + 1)))
          (λ i. children (i + (mid + 1)))
  unfolding high_right
  right_behind high second =
      let copied : NorPage = record p {
        keys = move p.keys 0 (mid + 1) (count - mid);
        values = move p.values 0 (mid + 1) (count - mid);
      } in
      let q = set_count_bits_interior g copied (count - mid + 1) in
      let far : mid < c = ground (arith, high, at.above mid) in
      let there : mid + 1 < c = ground (arith, far, second, at.above (mid + 1), at.inside) in
      let maps = HasBitmaps-bits (interior_limit g) p copied (refl, refl) at.maps in
      let s =
        set_count_bits-Counted g copied (count - mid + 1) maps
          (omega (arith, at.fits, at.several)) in
      let inserted =
        inserted-Holds g copied q (count - mid) key left right (c - (mid + 1)) s
          (omega (arith, at.inside)) (λ i lt. before i there lt) (λ lt. after there lt) in
      let shifted =
        Holds-same g (insert_interior_new q (count - mid) key left right) (count - mid + 1)
          (with_key copied.keys (c - (mid + 1)) key)
          (with_children copied.values (c - (mid + 1)) left right) (λ i. keys (i + (mid + 1)))
          (λ i. children (i + (mid + 1))) inserted
          (λ i lt. (key_at i there lt, child_at i there lt)) in
      let test : goes_first p count key ≡ false = ground (arith, second) in
      rw test (
        Holds-reset g (insert_interior_new q (count - mid) key left right) (count - mid + 1)
          (λ i. keys (i + (mid + 1))) (λ i. children (i + (mid + 1))) shifted)
    where
      before :
          (i : ℕ) → mid + 1 < c → i < c - (mid + 1) → move p.keys 0 (mid + 1) (count - mid) i ≤ key
      before i there lt =
          let h = at.below (mid + 1 + i) (omega arith) in
          let e : mid + 1 + (i - 0) ≡ mid + 1 + i = omega arith in
          ground (arith, at.inside, h, ap p.keys e)

      after :
          mid + 1 < c
          → c - (mid + 1) < count - mid
          → key < move p.keys 0 (mid + 1) (count - mid) (c - (mid + 1))
      after there lt =
          let h = at.above c (omega arith) at.inside in
          let e : mid + 1 + (c - (mid + 1) - 0) ≡ c = omega arith in ground (arith, h, ap p.keys e)

      key_at :
          (i : ℕ)
          → mid + 1 < c
          → i < count - mid + 1
          → with_key (move p.keys 0 (mid + 1) (count - mid)) (c - (mid + 1)) key i
            ≡ keys (i + (mid + 1))
      key_at i there lt =
          let e : mid + 1 + (i - 0) ≡ i + (mid + 1) = omega arith in
          let e1 : i ≢ 0 → mid + 1 + (i - 1 - 0) ≡ i + (mid + 1) - 1 = λ ne. omega arith in
          ground (arith, at.inside, ap p.keys e, λ (ne : i ≢ 0). ap p.keys (e1 ne))

      child_at :
          (i : ℕ)
          → mid + 1 < c
          → i < count - mid + 1
          → with_children (move p.values 0 (mid + 1) (count - mid)) (c - (mid + 1)) left right i
            ≡ children (i + (mid + 1))
      child_at i there lt =
          let e : mid + 1 + (i - 0) ≡ i + (mid + 1) = omega arith in
          let e1 : i ≢ 0 → mid + 1 + (i - 1 - 0) ≡ i + (mid + 1) - 1 = λ ne. omega arith in
          ground (arith, at.inside, ap p.values e, λ (ne : i ≢ 0). ap p.values (e1 ne))

-- The second page, when the new key goes there.
module _ (g : NorGeometry) (p : NorPage) (count key left right c : ℕ) (at : At g p count key c)
    (middle : mid_of count ≡ count / 2) where
  right_high :
      p.keys (mid_of count) ≤ key
      → Holds g
          (high_right g p count key left right)
          (count - mid_of count + 1)
          (λ i. with_key p.keys c key (i + (mid_of count + 1)))
          (λ i. with_children p.values c left right (i + (mid_of count + 1)))
  right_high high = elim (Bool-cases (goes_first p count key)) [
    | inl first ↦ right_first g p count key left right c at middle high (ground (arith, first))
    | inr behind ↦ right_behind g p count key left right c at middle high (ground (arith, behind))
  ]

mid_of-half : (count : ℕ) → count < 256 → mid_of count ≡ count / 2
unfolding mid_of
mid_of-half count h = omega arith

-- The two pages.
pub record Parts (g : NorGeometry) (p q l : NorPage) (count key left right c m promoted : ℕ)
    : Type 0 where
  pub first : Holds g q m (with_key p.keys c key) (with_children p.values c left right)
  pub second :
      Holds g l
        (count + 2 - m)
        (λ i. with_key p.keys c key (i + m))
        (λ i. with_children p.values c left right (i + m))
  pub last : promoted ≡ with_key p.keys c key (m - 1)
  pub some_left : 1 ≤ m
  pub some_right : m < count + 2

-- A full, sorted interior page of OVERWRITE, of `count + 1` records, is split in `vmtreePutNorOverwrite`
-- around a key whose place among them is `c`: the first page has the first records, and the
-- second page the others, of the sequence in which the new key with `left` comes before the record
-- at `c`, which leads to `right`; behind them both are empty; and the key for the node above is
-- the last key of the first page. (The count is from 1 to 255, and the bitmaps have their bits.)
pub split_left-Parts :
    (g : NorGeometry) (p : NorPage) (count key left right c : ℕ)
    → At g p count key c
    → (m : ℕ) × Parts g p
        (split_left g p count key left right)
        (split_right g p count key left right)
        count
        key
        left
        right
        c
        m
        (promoted_key p count)
unfolding split_left split_right promoted_key
split_left-Parts g p count key left right c at =
    let middle = mid_of-half count at.few in
    elim (Bool-cases (goes_left p count key)) [
      | inl low ↦
          let lt : key < p.keys (mid_of count) = ground (arith, low) in
          let near : c ≤ mid_of count = ground (arith, lt, at.below (mid_of count)) in
          let n : count + 2 - (mid_of count + 2) ≡ count - mid_of count = omega arith in
          let e : mid_of count + 2 - 1 - 1 ≡ mid_of count = omega arith in
          (
            mid_of count + 2,
            record {
              first = rw low (left_low g p count key left right c at middle lt);
              second = rw (low, n) (right_low g p count key left right c at middle lt);
              last = ground (arith, near, ap p.keys e);
              some_left = omega arith;
              some_right = omega (arith, at.several);
            },
          )
      | inr high ↦
          let le : p.keys (mid_of count) ≤ key = ground (arith, high) in
          let far : mid_of count < c = ground (arith, le, at.above (mid_of count)) in
          let n : count + 2 - (mid_of count + 1) ≡ count - mid_of count + 1 = omega arith in
          let e : mid_of count + 1 - 1 ≡ mid_of count = omega arith in
          (
            mid_of count + 1,
            record {
              first = rw high (left_high g p count key left right c at middle le);
              second = rw (high, n) (right_high g p count key left right c at middle le);
              last = ground (arith, far, ap p.keys e);
              some_left = omega arith;
              some_right = omega (arith, at.several);
            },
          )
    ]
