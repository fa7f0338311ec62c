-- ===== src/Nor/Interior/Parts.antt =====
-- The records of an interior page of OVERWRITE in src/vmtree.c, with bits set and one put among them.
use vmtree.Base.{
  ℕ, zero, suc, ◌+◌, ◌-◌, ◌≤◌, ◌<◌, ◌≡◌, refl, false, Memory, ltb, leb, ◌==◌, if◌then◌else◌, arith,
  ◌∙◌, ap, Bool-cases, inl, inr,
}
use vmtree.Nor.{NorPage, NorGeometry, interior_limit, set_count_bits_interior, reset_block_interior}
use vmtree.Nor.Bits.{HasBitmaps, IsCounted, set_bits-IsCounted, set_bits-both}
use vmtree.Nor.Interior.{first_larger, insert_interior_new}
use vmtree.Nor.Leaf.Halves.{IsCounted-bits}

-- Keys with a new one at `c`, and the pages below, where `left` and `right` replace the one at `c`.
abbrev pub with_key : Memory ℕ → (c key : ℕ) → Memory ℕ
with_key keys c key = λ i. if ltb i c then keys i else if i == c then key else keys (i - 1)

abbrev pub with_children : Memory ℕ → (c left right : ℕ) → Memory ℕ
with_children values c left right = λ i.
    if ltb i c
    then values i
    else if i == c
    then left
    else if i == c + 1
    then right
    else values (i - 1)

-- A page whose first `n` records are the ones given, and which is empty behind them.
pub record Holds (g : NorGeometry) (q : NorPage) (n : ℕ) (keys values : Memory ℕ) : Type 0 where
  pub counted : IsCounted (interior_limit g) n q
  pub key : (i : ℕ) → i < n → q.keys i ≡ keys i
  pub value : (i : ℕ) → i < n → q.values i ≡ values i

first_larger-at :
    (left : ℕ) (p : NorPage) (key c r : ℕ)
    → c ≤ r
    → r ≤ c + left
    → ((i : ℕ) → c ≤ i → i < r → p.keys i ≤ key)
    → (r < c + left → key < p.keys r)
    → first_larger left p key c ≡ r
unfolding first_larger
first_larger-at zero p key c r h k below above = omega arith
first_larger-at (suc left) p key c r h k below above = elim (Bool-cases (c == r)) [
  | inl e ↦ (let same : c ≡ r = ground (arith, e) in ground (arith, e, above))
  | inr e ↦
      let rest =
        first_larger-at left p key (c + 1) r (ground (arith, e)) (omega arith)
          (λ i h k. below i (omega arith) k) (λ lt. above (omega arith)) in
      ground (arith, e, below c, rest)
]

insert_interior_new-at :
    (p : NorPage) (n key left right c j : ℕ)
    → c ≤ n
    → ((i : ℕ) → i < c → p.keys i ≤ key)
    → (c < n → key < p.keys c)
    → j ≤ n
    → ((insert_interior_new p n key left right).keys j ≡ with_key p.keys c key j)
      × ((insert_interior_new p n key left right).values j ≡ with_children p.values c left right j)
unfolding insert_interior_new
insert_interior_new-at p n key left right c j h below above k =
    let e : first_larger n p key 0 ≡ c =
      first_larger-at n p key 0 c (omega arith) (omega arith) (λ i h k. below i k)
        (λ lt. above (omega arith)) in
    (rw e (ground arith), rw e (ground arith))

-- The bits of the insertion are those of the page.
insert_interior_new-bits :
    (p : NorPage) (n key left right : ℕ)
    → ((insert_interior_new p n key left right).bm1 ≡ p.bm1)
      × ((insert_interior_new p n key left right).bm2 ≡ p.bm2)
unfolding insert_interior_new
insert_interior_new-bits p n key left right = (refl, refl)

pub Holds-reset :
    (g : NorGeometry) (q : NorPage) (n : ℕ) (keys values : Memory ℕ)
    → Holds g q n keys values
    → Holds g (reset_block_interior g q n) n keys values
unfolding reset_block_interior
Holds-reset g q n keys values h = record {
  counted =
      IsCounted-bits (interior_limit g) n q (reset_block_interior g q n) (refl, refl) h.counted;
  key = λ i lt. (let e : leb n i ≡ false = ground (arith, lt) in rw e (h.key i lt));
  value = λ i lt. (let e : leb n i ≡ false = ground (arith, lt) in rw e (h.value i lt));
}

-- The page with the bits set, before its records are moved.
pub record Counted (g : NorGeometry) (p q : NorPage) (n : ℕ) : Type 0 where
  pub counted : IsCounted (interior_limit g) n q
  pub keys : q.keys ≡ p.keys
  pub values : q.values ≡ p.values

pub set_count_bits-Counted :
    (g : NorGeometry) (p : NorPage) (n : ℕ)
    → HasBitmaps (interior_limit g) p
    → n ≤ interior_limit g
    → Counted g p (set_count_bits_interior g p n) n
unfolding set_count_bits_interior
set_count_bits-Counted g p n h le =
    let b = set_bits-both (interior_limit g) n p h le in
    record { counted = set_bits-IsCounted (interior_limit g) n p h le; keys = b.2; values = b.3 }

-- An insertion among the first `n` records of a page with bits for one more.
pub inserted-Holds :
    (g : NorGeometry) (p q : NorPage) (n key left right c : ℕ)
    → Counted g p q (n + 1)
    → c ≤ n
    → ((i : ℕ) → i < c → p.keys i ≤ key)
    → (c < n → key < p.keys c)
    → Holds g
        (insert_interior_new q n key left right)
        (n + 1)
        (with_key p.keys c key)
        (with_children p.values c left right)
inserted-Holds g p q n key left right c s h below above = record {
  counted =
      IsCounted-bits (interior_limit g) (n + 1) q (insert_interior_new q n key left right)
        (insert_interior_new-bits q n key left right) s.counted;
  key = λ i lt. (slot i lt).0 ∙ ap (λ (m : Memory ℕ). with_key m c key i) s.keys;
  value = λ i lt. (slot i lt).1 ∙ ap (λ (m : Memory ℕ). with_children m c left right i) s.values;
}
  where
    slot :
        (i : ℕ)
        → i < n + 1
        → ((insert_interior_new q n key left right).keys i ≡ with_key q.keys c key i)
          × ((insert_interior_new q n key left right).values i
              ≡ with_children q.values c left right i)
    slot i lt =
        insert_interior_new-at q n key left right c i h (λ j k. rw (s.keys) (below j k))
          (λ k. rw (s.keys) (above k)) (omega arith)

-- A page with the same bits.
pub moved-Holds :
    (g : NorGeometry) (p q moved : NorPage) (n : ℕ) (keys values : Memory ℕ)
    → Counted g p q n
    → (moved.bm1 ≡ q.bm1) × (moved.bm2 ≡ q.bm2)
    → ((i : ℕ) → i < n → (moved.keys i ≡ keys i) × (moved.values i ≡ values i))
    → Holds g moved n keys values
moved-Holds g p q moved n keys values s bits same = record {
  counted = IsCounted-bits (interior_limit g) n q moved bits s.counted;
  key = λ i lt. (same i lt).0;
  value = λ i lt. (same i lt).1;
}

pub Holds-same :
    (g : NorGeometry) (q : NorPage) (n : ℕ) (keys values keys' values' : Memory ℕ)
    → Holds g q n keys values
    → ((i : ℕ) → i < n → (keys i ≡ keys' i) × (values i ≡ values' i))
    → Holds g q n keys' values'
Holds-same g q n keys values keys' values' h same = record {
  counted = h.counted;
  key = λ i lt. h.key i lt ∙ (same i lt).0;
  value = λ i lt. h.value i lt ∙ (same i lt).1;
}
